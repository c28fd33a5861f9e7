-- ===== src/Prelude/Keys.antt =====
-- Lists that are searched by a text that each element has, as an id: removal of a key, and an
-- element put at the end.
use mathlib.Core.Path.{◌≡◌, refl, ◌∙◌}
use mathlib.Core.Logic.{inl, inr}
use mathlib.Core.Bool.{true, false, not}
use mathlib.Core.Option.{none, some}
use mathlib.Core.List.{List, [], ◌∷◌, ◌++◌}
use native.Mathlib.Omega.{arith}
use agent_workspace_hub.Prelude.Tests.{if◌then◌else◌, Bool-cases, is_some}
use agent_workspace_hub.Prelude.Strings.{Text, text_eq, text_eq_iff}
use agent_workspace_hub.Prelude.Lists.{
  find, retain, find-retain-none, find-retain_same, find-push_other, find-append_none, find-single,
}

module _ {ℓ} {A : Type ℓ} (key : A → Text) where
  -- A key that is removed is not found, and every other key is found as before.
  pub find-remove_key :
      (id other : Text) (xs : List A)
      → find (λ x. text_eq (key x) other) (retain (λ x. not (text_eq (key x) id)) xs)
        ≡ (if text_eq id other then none else find (λ x. text_eq (key x) other) xs)
  find-remove_key id other xs = elim (Bool-cases (text_eq id other)) [
    | inl e ↦ rw e (find-retain-none _ _ xs (λ x m. dropped x e m))
    | inr e ↦ rw e (find-retain_same _ _ xs (λ x m. kept x e m))
  ]
    where
      dropped :
          (x : A)
          → text_eq id other ≡ true
          → text_eq (key x) other ≡ true
          → not (text_eq (key x) id) ≡ false
      dropped x e m =
          ground (arith, text_eq_iff id other, text_eq_iff (key x) other, text_eq_iff (key x) id)

      kept :
          (x : A)
          → text_eq id other ≡ false
          → text_eq (key x) other ≡ true
          → not (text_eq (key x) id) ≡ true
      kept x e m =
          ground (arith, text_eq_iff id other, text_eq_iff (key x) other, text_eq_iff (key x) id)

  -- An element put in place of those with its key is what the key finds.
  pub find-put_key :
      (y : A) (other : Text) (xs : List A)
      → find (λ x. text_eq (key x) other) (retain (λ x. not (text_eq (key x) (key y))) xs ++ y ∷ [])
        ≡ (if text_eq (key y) other then some y else find (λ x. text_eq (key x) other) xs)
  find-put_key y other xs = elim (Bool-cases (text_eq (key y) other)) [
    | inl e ↦ rw e (
        find-append_none _ _ (y ∷ []) (find-remove_key (key y) other xs ∙ rw e refl)
        ∙ find-single _ y e)
    | inr e ↦ rw e (find-push_other _ y _ e ∙ find-remove_key (key y) other xs ∙ rw e refl)
  ]

  -- Removing a key that is not there changes no search.
  pub find-absent_key :
      (id other : Text) (xs : List A)
      → is_some (find (λ x. text_eq (key x) id) xs) ≡ false
      → find (λ x. text_eq (key x) other) xs
        ≡ (if text_eq id other then none else find (λ x. text_eq (key x) other) xs)
  find-absent_key id other xs n = elim (Bool-cases (text_eq id other)) [
    | inl e ↦ let same = (text_eq_iff id other).0 e in rw e (rw (← same) (ground arith))
    | inr e ↦ rw e refl
  ]
