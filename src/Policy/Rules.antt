-- ===== src/Policy/Rules.antt =====
-- core/policy.rs: which rule decides, and what adding and removing a rule changes.
use agent_workspace_hub.Prelude.{
  ◌≡◌, ◌⊎◌, inl, inr, refl, sym, ◌∙◌, ap, Bool, true, false, not, ◌&&◌, Option, none, some, List,
  [], ◌∷◌, ◌++◌, Text, text_eq, arith, if◌then◌else◌, find, retain, ok, err, Option-cases,
  Result-cases, is_some, find-append_none, find-append_some, any-find, retain_shorter,
  find-remove_key, find-absent_key, length, ◌==◌,
}
use agent_workspace_hub.Host.{stored, Host}
use agent_workspace_hub.Policy.{
  PolicyRule, PolicyFault, Store, load, open_store, validate_rule, add, remove, finish_remove,
  matches, matching_in, matching,
}

-- A rule applies to a call of a tool on a resource.
pub applies : Text → Text → PolicyRule → Bool
applies tool resource rule = text_eq rule.tool tool && matches tool rule.pattern_text resource

matching_in-find :
    (tool resource : Text) (rules : List PolicyRule)
    → matching_in tool resource rules ≡ find (applies tool resource) rules
unfolding matching_in find applies
matching_in-find tool resource [] = refl
matching_in-find tool resource (rule ∷ rules) = ground (arith, matching_in-find tool resource rules)

-- A call is decided by the first stored rule that applies to it, and by none exactly when none
-- does; a store that cannot be read is an error, never a permission.
pub matching-find :
    (tool resource : Text) (d : Store)
    → ((rules : List PolicyRule)
        → load d ≡ ok rules
        → matching tool resource d ≡ ok (find (applies tool resource) rules))
      × ((x : PolicyFault) → load d ≡ err x → matching tool resource d ≡ err x)
unfolding matching
matching-find tool resource d =
    (λ rules e. ground (arith, matching_in-find tool resource rules), λ x e. ground arith)

abbrev pub or_else : Option PolicyRule → Option PolicyRule → Option PolicyRule
or_else none b = b
or_else (some a) b = some a

open_store-eq-ok :
    (h : Host) (d : Store) (rules : List PolicyRule) → open_store h d ≡ ok rules → load d ≡ ok rules
unfolding open_store
open_store-eq-ok h d rules p = ground arith

add-eq-ok :
    (h : Host) (rule : PolicyRule) (d d' : Store)
    → add h rule d ≡ ok d'
    → (rules : List PolicyRule) × (load d ≡ ok rules)
      × (d' ≡ stored (rules ++ rule ∷ []))
      × (find (λ r. text_eq r.id rule.id) rules ≡ none)
unfolding add
add-eq-ok h rule d d' p = elim (Result-cases (validate_rule rule)) [
  | inr (x, e) ↦ absurd (ground arith)
  | inl (u, v) ↦ elim (Result-cases (open_store h d)) [
    | inr (x, e) ↦ absurd (ground arith)
    | inl (rules, e) ↦ (
      rules,
      open_store-eq-ok h d rules e,
      ground arith,
      ground (arith, any-find (λ (r : PolicyRule). text_eq r.id rule.id) rules),
    )
  ]
]

find-add :
    (q : PolicyRule → Bool) (rules : List PolicyRule) (rule : PolicyRule)
    → find q (rules ++ rule ∷ []) ≡ or_else (find q rules) (if q rule then some rule else none)
find-add q rules rule = elim (Option-cases (find q rules)) [
  | inl e ↦ rw e (find-append_none q rules (rule ∷ []) e ∙ last)
  | inr (r, e) ↦ rw e (find-append_some q rules (rule ∷ []) e)
]
  where
    last : find q (rule ∷ []) ≡ (if q rule then some rule else none)
    last = unfold find in ground arith

load-stored : (rules : List PolicyRule) → load (stored rules) ≡ ok rules
unfolding load
load-stored rules = refl

-- Adding a rule only narrows: a call that a rule denied is denied by the same rule as before, a
-- call that only the new rule applies to is denied by it, and every other call is decided as
-- before.
pub matching-add :
    (h : Host) (rule : PolicyRule) (d d' : Store) (tool resource : Text)
    {before : Option PolicyRule}
    → add h rule d ≡ ok d'
    → matching tool resource d ≡ ok before
    → matching tool resource d'
      ≡ ok (or_else before (if applies tool resource rule then some rule else none))
matching-add h rule d d' tool resource {before} p m =
    let (rules, l, w, fresh) = add-eq-ok h rule d d' p in
    let old = (matching-find tool resource d).0 rules l in
    rw w (
      (matching-find tool resource (stored (rules ++ rule ∷ []))).0 (rules ++ rule ∷ [])
        (load-stored (rules ++ rule ∷ []))
      ∙ ap ok (
          find-add (applies tool resource) rules rule
          ∙ ap (λ b. or_else b (if applies tool resource rule then some rule else none))
              (same old m)))
  where
    same :
        {a b : Option PolicyRule}
        → matching tool resource d ≡ ok a
        → matching tool resource d ≡ ok b
        → a ≡ b
    same e f = cc

-- The id of a rule, looked up.
abbrev pub with_id : Text → PolicyRule → Bool
with_id id r = text_eq r.id id

finish_remove-eq-ok :
    (h : Host) (d d' : Store) (rules kept : List PolicyRule) (removed : Bool)
    → finish_remove h d rules kept ≡ ok (d', removed)
    → (removed ≡ not (length rules == length kept))
      × (((removed ≡ false) × (d' ≡ d)) ⊎ ((removed ≡ true) × (d' ≡ stored kept)))
unfolding finish_remove
finish_remove-eq-ok h d d' rules kept removed p = ground arith

-- The opened store is the loaded one, and the rest of `remove` works on it.
remove-eq-ok :
    (h : Host) (id : Text) (d d' : Store) (removed : Bool)
    → remove h id d ≡ ok (d', removed)
    → (rules : List PolicyRule) × (load d ≡ ok rules)
      × (finish_remove h d rules (retain (λ r. not (text_eq r.id id)) rules) ≡ ok (d', removed))
unfolding remove
remove-eq-ok h id d d' removed p = elim (Result-cases (open_store h d)) [
  | inr (x, e) ↦ absurd (ground arith)
  | inl (rules, e) ↦ (rules, open_store-eq-ok h d rules e, ground arith)
]

-- The rules that a store holds once those with an id have been removed.
abbrev pub Without : Text → List PolicyRule → Store → Type 0
Without id rules d' =
    (rules' : List PolicyRule) × (load d' ≡ ok rules')
    × ((other : Text)
        → find (with_id other) rules'
          ≡ (if text_eq id other then none else find (with_id other) rules))

-- A removal that succeeds answers whether a rule had the id; the store then has no rule of that
-- id, and finds every other id as before; and if no rule had it the store is left alone.
pub remove_lem :
    (h : Host) (id : Text) (d d' : Store) (removed : Bool)
    → remove h id d ≡ ok (d', removed)
    → (rules : List PolicyRule) × (load d ≡ ok rules)
      × (removed ≡ is_some (find (with_id id) rules))
      × (removed ≡ false → d' ≡ d)
      × Without id rules d'
remove_lem h id d d' removed p =
    let (rules, l, q) = remove-eq-ok h id d d' removed p in
    let kept = retain (λ r. not (text_eq r.id id)) rules in
    let (flag, outcome) = finish_remove-eq-ok h d d' rules kept removed q in
    let answer = flag ∙ retain_shorter (λ r. text_eq r.id id) rules in
    (
      rules,
      l,
      answer,
      λ f. ground arith,
      elim outcome [
        | inl (none_had, w) ↦ (
          rules,
          rw w l,
          λ other. find-absent_key (λ r. r.id) id other rules (sym answer ∙ none_had),
        )
        | inr (gone, w) ↦
            (kept, rw w (load-stored kept), λ other. find-remove_key (λ r. r.id) id other rules)
      ],
    )
