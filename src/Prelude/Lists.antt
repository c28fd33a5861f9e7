-- ===== src/Prelude/Lists.antt =====
-- Lists measured by native numbers, and the iterator methods that the stores use, with a Boolean
-- predicate: `any`, `all`, `find`, `retain` (also `filter`), and a write to the first match.
use Prim.Native.Nat.{ℕ, zero, suc, ◌+◌, ◌≤◌, ◌<◌}
use mathlib.Core.Path.{◌≡◌, refl, subst}
use mathlib.Core.Logic.{inl, inr}
use mathlib.Core.Bool.{Bool, true, false, not, ◌&&◌, ◌||◌}
use mathlib.Core.List.{List, [], ◌∷◌, ◌++◌}
use mathlib.Core.Option.{Option, none, some}
use native.Mathlib.Omega.{arith}
use agent_workspace_hub.Prelude.Tests.{if◌then◌else◌, Bool-cases, Option-cases, is_some, ◌==◌}

module _ {ℓ} {A : Type ℓ} where
  abbrev pub length : List A → ℕ
  length [] = 0
  length (x ∷ xs) = suc (length xs)

  abbrev pub get_elem? : List A → ℕ → Option A
  get_elem? [] i = none
  get_elem? (x ∷ xs) zero = some x
  get_elem? (x ∷ xs) (suc i) = get_elem? xs i

  abbrev pub take : ℕ → List A → List A
  take zero xs = []
  take (suc n) [] = []
  take (suc n) (x ∷ xs) = x ∷ take n xs

  abbrev pub drop : ℕ → List A → List A
  drop zero xs = xs
  drop (suc n) [] = []
  drop (suc n) (x ∷ xs) = drop n xs

  unfoldable pub any : (A → Bool) → List A → Bool
  any p [] = false
  any p (x ∷ xs) = p x || any p xs

  unfoldable pub all : (A → Bool) → List A → Bool
  all p [] = true
  all p (x ∷ xs) = p x && all p xs

  unfoldable pub find : (A → Bool) → List A → Option A
  find p [] = none
  find p (x ∷ xs) = if p x then some x else find p xs

  unfoldable pub retain : (A → Bool) → List A → List A
  retain p [] = []
  retain p (x ∷ xs) = let rest = retain p xs in if p x then x ∷ rest else rest

  -- The list after a write through the reference that `find` or `position` gave.
  unfoldable pub replace_first : (A → Bool) → A → List A → List A
  replace_first p y [] = []
  replace_first p y (x ∷ xs) = if p x then y ∷ xs else x ∷ replace_first p y xs

  -- Every element satisfies a predicate.
  abbrev pub All {κ} : (A → Type κ) → List A → Type κ
  All P [] = Unit
  All P (x ∷ xs) = P x × All P xs

module _ {ℓ} {A : Type ℓ} where
  pub length-append : (xs ys : List A) → length (xs ++ ys) ≡ length xs + length ys
  length-append [] ys = omega arith
  length-append (x ∷ xs) ys = omega (arith, length-append xs ys)

  pub length-retain : (p : A → Bool) (xs : List A) → length (retain p xs) ≤ length xs
  unfolding retain
  length-retain p [] = omega arith
  length-retain p (x ∷ xs) = ground (arith, length-retain p xs)

  -- Removing at least one element shortens the list.
  pub length-retain_lt :
      (q : A → Bool) (xs : List A) {y : A}
      → find q xs ≡ some y
      → length (retain (λ x. not (q x)) xs) < length xs
  unfolding find retain
  length-retain_lt q [] h = cc
  length-retain_lt q (x ∷ xs) {y} h =
      ground (arith, length-retain (λ x. not (q x)) xs, length-retain_lt q xs {y = y})

  pub length-replace_first :
      (p : A → Bool) (y : A) (xs : List A) → length (replace_first p y xs) ≡ length xs
  unfolding replace_first
  length-replace_first p y [] = refl
  length-replace_first p y (x ∷ xs) = ground (arith, length-replace_first p y xs)

  -- What `find` returns satisfies the predicate.
  pub find-holds : (p : A → Bool) (xs : List A) {y : A} → find p xs ≡ some y → p y ≡ true
  unfolding find
  find-holds p [] h = cc
  find-holds p (x ∷ xs) {y} h = ground (arith, find-holds p xs {y = y})

  pub find-All {κ} :
      (P : A → Type κ) (p : A → Bool) (xs : List A) {y : A} → All P xs → find p xs ≡ some y → P y
  unfolding find
  find-All P p [] a h = cc
  find-All P p (x ∷ xs) {y} a h = elim (Bool-cases (p x)) [
    | inl e ↦ let same : x ≡ y = ground arith in subst P same a.0
    | inr e ↦ find-All P p xs a.1 (rw e at h)
  ]

  pub find-append_none :
      (p : A → Bool) (xs ys : List A) → find p xs ≡ none → find p (xs ++ ys) ≡ find p ys
  unfolding find
  find-append_none p [] ys h = refl
  find-append_none p (x ∷ xs) ys h = ground (arith, find-append_none p xs ys)

  pub find-append_some :
      (p : A → Bool) (xs ys : List A) {y : A} → find p xs ≡ some y → find p (xs ++ ys) ≡ some y
  unfolding find
  find-append_some p [] ys h = cc
  find-append_some p (x ∷ xs) ys {y} h = ground (arith, find-append_some p xs ys {y = y})

  pub replace_first_absent :
      (p : A → Bool) (y : A) (xs : List A) → find p xs ≡ none → replace_first p y xs ≡ xs
  unfolding find replace_first
  replace_first_absent p y [] h = refl
  replace_first_absent p y (x ∷ xs) h = ground (arith, replace_first_absent p y xs)

  -- After a write to the first match, a search by a test that the written value answers as the
  -- old value did finds it, and other searches are as before.
  pub find-replace_first :
      (p : A → Bool) (y : A) (xs : List A)
      → p y ≡ true
      → is_some (find p xs) ≡ true
      → find p (replace_first p y xs) ≡ some y
  unfolding find replace_first
  find-replace_first p y [] hy h = cc
  find-replace_first p y (x ∷ xs) hy h = ground (arith, find-replace_first p y xs)

  pub find-replace_first_other :
      (p q : A → Bool) (y : A) (xs : List A) {x₀ : A}
      → find p xs ≡ some x₀
      → q x₀ ≡ false
      → q y ≡ false
      → find q (replace_first p y xs) ≡ find q xs
  unfolding find replace_first
  find-replace_first_other p q y [] h e f = cc
  find-replace_first_other p q y (x ∷ xs) {x₀} h e f =
      ground (arith, find-replace_first_other p q y xs {x₀ = x₀})

  pub All-replace_first {κ} :
      (P : A → Type κ) (p : A → Bool) (y : A) (xs : List A)
      → All P xs
      → P y
      → All P (replace_first p y xs)
  unfolding replace_first
  All-replace_first P p y [] a h = tt
  All-replace_first P p y (x ∷ xs) a h = elim (Bool-cases (p x)) [
    | inl e ↦ rw e (h, a.1)
    | inr e ↦ rw e (a.0, All-replace_first P p y xs a.1 h)
  ]

  pub All-retain {κ} :
      (P : A → Type κ) (p : A → Bool) (xs : List A) → All P xs → All P (retain p xs)
  unfolding retain
  All-retain P p [] a = tt
  All-retain P p (x ∷ xs) a = elim (Bool-cases (p x)) [
    | inl e ↦ rw e (a.0, All-retain P p xs a.1)
    | inr e ↦ rw e (All-retain P p xs a.1)
  ]

  pub All-append {κ} : (P : A → Type κ) (xs ys : List A) → All P xs → All P ys → All P (xs ++ ys)
  All-append P [] ys a b = b
  All-append P (x ∷ xs) ys a b = (a.0, All-append P xs ys a.1 b)

  -- Nothing that the filter drops is found afterwards, and the rest is found as before.
  pub find-retain-none :
      (p q : A → Bool) (xs : List A)
      → ((x : A) → q x ≡ true → p x ≡ false)
      → find q (retain p xs) ≡ none
  unfolding find retain
  find-retain-none p q [] h = refl
  find-retain-none p q (x ∷ xs) h = ground (arith, h x, find-retain-none p q xs h)

  pub find-retain_same :
      (p q : A → Bool) (xs : List A)
      → ((x : A) → q x ≡ true → p x ≡ true)
      → find q (retain p xs) ≡ find q xs
  unfolding find retain
  find-retain_same p q [] h = refl
  find-retain_same p q (x ∷ xs) h = ground (arith, h x, find-retain_same p q xs h)

  pub any-find : (p : A → Bool) (xs : List A) → any p xs ≡ is_some (find p xs)
  unfolding any find
  any-find p [] = refl
  any-find p (x ∷ xs) = ground (arith, any-find p xs)

  pub find-replace_first-none :
      (p q : A → Bool) (y : A) (xs : List A)
      → find q xs ≡ none
      → q y ≡ false
      → find q (replace_first p y xs) ≡ none
  unfolding find replace_first
  find-replace_first-none p q y [] h e = refl
  find-replace_first-none p q y (x ∷ xs) h e = ground (arith, find-replace_first-none p q y xs)

  pub find-retain_absent :
      (p q : A → Bool) (xs : List A) → find q xs ≡ none → find q (retain p xs) ≡ none
  unfolding find retain
  find-retain_absent p q [] h = refl
  find-retain_absent p q (x ∷ xs) h = ground (arith, find-retain_absent p q xs)

  pub find-push_other :
      (q : A → Bool) (r : A) (xs : List A) → q r ≡ false → find q (xs ++ r ∷ []) ≡ find q xs
  unfolding find
  find-push_other q r [] e = ground arith
  find-push_other q r (x ∷ xs) e = ground (arith, find-push_other q r xs)

  pub find-single : (q : A → Bool) (r : A) → q r ≡ true → find q (r ∷ []) ≡ some r
  unfolding find
  find-single q r e = ground arith

  -- Removing what is not there changes nothing.
  pub retain_absent :
      (q : A → Bool) (xs : List A) → find q xs ≡ none → retain (λ x. not (q x)) xs ≡ xs
  unfolding find retain
  retain_absent q [] h = refl
  retain_absent q (x ∷ xs) h = ground (arith, retain_absent q xs)

  -- Whether the list has become shorter tells whether something was there.
  pub retain_shorter :
      (q : A → Bool) (xs : List A)
      → not (length xs == length (retain (λ x. not (q x)) xs)) ≡ is_some (find q xs)
  retain_shorter q xs = elim (Option-cases (find q xs)) [
    | inl e ↦ rw (e, retain_absent q xs e) (ground arith)
    | inr (y, e) ↦ rw e (ground (arith, length-retain_lt q xs {y = y} e))
  ]
