-- ===== src/Edit/Status.antt =====
-- The lifecycle states of an edit transaction (src/services/edit.rs: EditStatus), and runs of it
-- as lists of the states that are entered one after another.
use agent_workspace_hub.Prelude.{
  ℕ, ◌≤◌, ◌<◌, ◌≡◌, refl, ap, Bool-cases, Bool, true, false, ◌&&◌, List, [], ◌∷◌, ◌⊎◌, ◌↔◌, inl,
  inr, arith, length, if◌then◌else◌, &&-eq-true,
}

pub data EditStatus : Type 0 where
  requested authorized located validated snapshotted applied verified committed : EditStatus
  rejected conflict validation_failed apply_failed verification_failed rolled_back : EditStatus

unfoldable pub is_terminal : EditStatus → Bool
is_terminal status = elim status [
  | committed ↦ true
  | rejected ↦ true
  | conflict ↦ true
  | validation_failed ↦ true
  | apply_failed ↦ true
  | verification_failed ↦ true
  | rolled_back ↦ true
  | _ ↦ false
]

-- The pairs of `matches!` in `can_transition_to`.
unfoldable pub is_forward : EditStatus → EditStatus → Bool
is_forward status next = elim status [
  | requested ↦ elim next [ authorized ↦ true | rejected ↦ true | _ ↦ false ]
  | authorized ↦ elim next [ located ↦ true | rejected ↦ true | _ ↦ false ]
  | located ↦ elim next [ validated ↦ true | rejected ↦ true | _ ↦ false ]
  | validated ↦ elim next [
    | snapshotted ↦ true
    | applied ↦ true
    | conflict ↦ true
    | validation_failed ↦ true
    | rejected ↦ true
    | _ ↦ false
  ]
  | snapshotted ↦ elim next [ applied ↦ true | rolled_back ↦ true | _ ↦ false ]
  | applied ↦ elim next [ verified ↦ true | apply_failed ↦ true | rolled_back ↦ true | _ ↦ false ]
  | verified ↦ elim next [
    | committed ↦ true
    | verification_failed ↦ true
    | rolled_back ↦ true
    | _ ↦ false
  ]
  | _ ↦ false
]

unfoldable pub can_transition_to : EditStatus → EditStatus → Bool
unfolding is_terminal is_forward
can_transition_to status next = if is_terminal status then false else is_forward status next

-- The states entered one after another, each by a legal transition from the one before.
unfoldable pub is_run : EditStatus → List EditStatus → Bool
unfolding can_transition_to
is_run status [] = true
is_run status (next ∷ later) = can_transition_to status next && is_run next later

-- The most transitions that can still follow.
remaining : EditStatus → ℕ
remaining status = elim status [
  | requested ↦ 7
  | authorized ↦ 6
  | located ↦ 5
  | validated ↦ 4
  | snapshotted ↦ 3
  | applied ↦ 2
  | verified ↦ 1
  | _ ↦ 0
]

remaining_decreases :
    (status next : EditStatus)
    → can_transition_to status next ≡ true
    → remaining next < remaining status
unfolding can_transition_to is_terminal is_forward remaining
remaining_decreases status next h = ground arith

within : (s : EditStatus) (p : List EditStatus) → is_run s p ≡ true → length p ≤ remaining s
unfolding is_run
within s [] h = omega arith
within s (next ∷ later) h =
    let step = &&-eq-true (can_transition_to s next) (is_run next later) h in
    omega (arith, within next later step.1, remaining_decreases s next step.0)

at_most_seven : (s : EditStatus) → remaining s ≤ 7
unfolding remaining
at_most_seven s = ground arith

settled : (s : EditStatus) (p : List EditStatus) → is_run s p ≡ true → is_terminal s ≡ true → p ≡ []
unfolding is_run can_transition_to
settled s [] h t = refl
settled s (next ∷ later) h t = ground arith

-- A run of transitions is finite, whatever is chosen: from any state it has at most seven steps,
-- and none at all from a terminal state.
pub run-terminates :
    (status : EditStatus) (path : List EditStatus)
    → is_run status path ≡ true
    → length path ≤ (if is_terminal status then 0 else 7)
run-terminates status path run = elim (Bool-cases (is_terminal status)) [
  | inl e ↦ rw e (omega (arith, ap length (settled status path run e)))
  | inr e ↦ rw e (omega (arith, within status path run, at_most_seven status))
]

-- The last state of a run.
unfoldable pub final : EditStatus → List EditStatus → EditStatus
final status [] = status
final status (next ∷ later) = final next later

committed_only :
    (s : EditStatus) (p : List EditStatus)
    → is_terminal s ≡ true
    → is_run s p ≡ true
    → final s p ≡ committed
    → (s ≡ committed) × (p ≡ [])
unfolding final
committed_only s p t r f = let e = settled s p r t in (rw e at f, e)

from_verified :
    (p : List EditStatus)
    → is_run verified p ≡ true
    → final verified p ≡ committed
    → p ≡ committed ∷ []
unfolding is_run can_transition_to is_terminal is_forward final
from_verified [] r f = cc
from_verified (next ∷ later) r f = ground (arith, committed_only next later)

from_applied :
    (p : List EditStatus)
    → is_run applied p ≡ true
    → final applied p ≡ committed
    → p ≡ verified ∷ committed ∷ []
unfolding is_run can_transition_to is_terminal is_forward final
from_applied [] r f = cc
from_applied (next ∷ later) r f = ground (arith, committed_only next later, from_verified later)

from_snapshotted :
    (p : List EditStatus)
    → is_run snapshotted p ≡ true
    → final snapshotted p ≡ committed
    → p ≡ applied ∷ verified ∷ committed ∷ []
unfolding is_run can_transition_to is_terminal is_forward final
from_snapshotted [] r f = cc
from_snapshotted (next ∷ later) r f = ground (arith, committed_only next later, from_applied later)

from_validated :
    (p : List EditStatus)
    → is_run validated p ≡ true
    → final validated p ≡ committed
    → (p ≡ snapshotted ∷ applied ∷ verified ∷ committed ∷ [])
      ⊎ (p ≡ applied ∷ verified ∷ committed ∷ [])
unfolding is_run can_transition_to is_terminal is_forward final
from_validated [] r f = cc
from_validated (next ∷ later) r f =
    ground (arith, committed_only next later, from_snapshotted later, from_applied later)

from_located :
    (p : List EditStatus)
    → is_run located p ≡ true
    → final located p ≡ committed
    → (p ≡ validated ∷ snapshotted ∷ applied ∷ verified ∷ committed ∷ [])
      ⊎ (p ≡ validated ∷ applied ∷ verified ∷ committed ∷ [])
unfolding is_run can_transition_to is_terminal is_forward final
from_located [] r f = cc
from_located (next ∷ later) r f = ground (arith, committed_only next later, from_validated later)

from_authorized :
    (p : List EditStatus)
    → is_run authorized p ≡ true
    → final authorized p ≡ committed
    → (p ≡ located ∷ validated ∷ snapshotted ∷ applied ∷ verified ∷ committed ∷ [])
      ⊎ (p ≡ located ∷ validated ∷ applied ∷ verified ∷ committed ∷ [])
unfolding is_run can_transition_to is_terminal is_forward final
from_authorized [] r f = cc
from_authorized (next ∷ later) r f = ground (arith, committed_only next later, from_located later)

only_committed :
    (path : List EditStatus)
    → is_run requested path ≡ true
    → final requested path ≡ committed
    → (path ≡ authorized ∷ located ∷ validated ∷ snapshotted ∷ applied ∷ verified ∷ committed ∷ [])
      ⊎ (path ≡ authorized ∷ located ∷ validated ∷ applied ∷ verified ∷ committed ∷ [])
unfolding is_run can_transition_to is_terminal is_forward final
only_committed [] r f = cc
only_committed (next ∷ later) r f = ground (arith, committed_only next later, from_authorized later)

-- A sequence of states that starts in `requested`, takes only the transitions that
-- `can_transition_to` allows and ends in `committed` is one of exactly two: the states authorized,
-- located, validated, snapshotted, applied, verified and committed in this order, or these without
-- snapshotted. This is about the table of transitions only, not about the executors.
pub final-committed :
    (path : List EditStatus)
    → ((is_run requested path ≡ true) × (final requested path ≡ committed)) ↔ (
        (path
          ≡ authorized ∷ located ∷ validated ∷ snapshotted ∷ applied ∷ verified ∷ committed ∷ [])
        ⊎ (path ≡ authorized ∷ located ∷ validated ∷ applied ∷ verified ∷ committed ∷ []))
unfolding is_run can_transition_to is_terminal is_forward final
final-committed path = (
  λ (run, ends). only_committed path run ends,
  λ way. elim way [ inl e ↦ rw e (refl, refl) | inr e ↦ rw e (refl, refl) ],
)
