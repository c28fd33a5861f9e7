-- ===== src/Edit/Rollback/Records.antt =====
-- Lists of rollback records (src/services/edit.rs: rollback_edits_inner): distinct paths, and the
-- reversed order in which they are restored.
use agent_workspace_hub.Prelude.{
  ◌≡◌, refl, Bool, false, ◌||◌, List, [], ◌∷◌, ◌++◌, any, All, Text, text_eq, text_eq_iff, arith,
}
use agent_workspace_hub.Edit.Rollback.{RollbackRecord, reversed}

-- No two records are of one path.
unfoldable pub Distinct : List RollbackRecord → Type 0
unfolding any text_eq
Distinct [] = Unit
Distinct (entry ∷ entries) =
    (any (λ other. text_eq entry.path other.path) entries ≡ false) × Distinct entries

pub none_of : (a b : Bool) → (a || b) ≡ false → (a ≡ false) × (b ≡ false)
none_of a b h = (ground arith, ground arith)

any-snoc :
    (p : RollbackRecord → Bool) (entries : List RollbackRecord) (entry : RollbackRecord)
    → any p entries ≡ false
    → p entry ≡ false
    → any p (entries ++ entry ∷ []) ≡ false
unfolding any
any-snoc p [] entry a b = ground arith
any-snoc p (x ∷ entries) entry a b = ground (arith, any-snoc p entries entry)

any-reversed :
    (p : RollbackRecord → Bool) (entries : List RollbackRecord)
    → any p entries ≡ false
    → any p (reversed entries) ≡ false
unfolding any reversed
any-reversed p [] a = refl
any-reversed p (entry ∷ entries) a =
    let (here, there) = none_of (p entry) (any p entries) a in
    any-snoc p (reversed entries) entry (any-reversed p entries there) here

text_eq_sym : (a b : Text) → text_eq a b ≡ false → text_eq b a ≡ false
text_eq_sym a b e = ground (arith, text_eq_iff a b, text_eq_iff b a)

Distinct-snoc :
    (entries : List RollbackRecord) (entry : RollbackRecord)
    → Distinct entries
    → any (λ other. text_eq entry.path other.path) entries ≡ false
    → Distinct (entries ++ entry ∷ [])
unfolding Distinct any
Distinct-snoc [] entry d a = (refl, tt)
Distinct-snoc (x ∷ entries) entry d a =
    let (here, there) =
      none_of (text_eq entry.path x.path) (any (λ other. text_eq entry.path other.path) entries)
        a in
    (
      any-snoc (λ other. text_eq x.path other.path) entries entry d.0
          (text_eq_sym entry.path x.path here),
      Distinct-snoc entries entry d.1 there,
    )

pub Distinct-reversed :
    (entries : List RollbackRecord) → Distinct entries → Distinct (reversed entries)
unfolding Distinct reversed
Distinct-reversed [] d = tt
Distinct-reversed (entry ∷ entries) d =
    Distinct-snoc (reversed entries) entry (Distinct-reversed entries d.1)
      (any-reversed (λ other. text_eq entry.path other.path) entries d.0)

All-snoc :
    (P : RollbackRecord → Type 0) (entries : List RollbackRecord) (entry : RollbackRecord)
    → All P (entries ++ entry ∷ [])
    → All P entries × P entry
All-snoc P [] entry a = (tt, a.0)
All-snoc P (x ∷ entries) entry a =
    let (rest, last) = All-snoc P entries entry a.1 in ((a.0, rest), last)

pub All-reversed :
    (P : RollbackRecord → Type 0) (entries : List RollbackRecord)
    → All P (reversed entries)
    → All P entries
unfolding reversed
All-reversed P [] a = tt
All-reversed P (entry ∷ entries) a =
    let (rest, last) = All-snoc P (reversed entries) entry a in (last, All-reversed P entries rest)
