-- ===== src/Prelude/Slices.antt =====
-- Prefixes and suffixes of lists at an index, as slices of a buffer are taken.
use Prim.Native.Nat.{ℕ, zero, suc, ◌+◌, ◌-◌, ◌≤◌}
use mathlib.Core.Path.{◌≡◌, refl, sym, ap, ◌∙◌}
use mathlib.Core.Bool.{true}
use mathlib.Core.List.{List, [], ◌∷◌, ◌++◌}
use native.Mathlib.Omega.{arith}
use agent_workspace_hub.Prelude.Lists.{length, take, drop}
use agent_workspace_hub.Prelude.Strings.{Text, starts_with}

module _ {ℓ} {A : Type ℓ} where
  pub drop-nil : (n : ℕ) → drop {A = A} n [] ≡ []
  drop-nil zero = refl
  drop-nil (suc n) = refl

  pub take-nil : (n : ℕ) → take {A = A} n [] ≡ []
  take-nil zero = refl
  take-nil (suc n) = refl

  pub drop-drop : (m n : ℕ) (xs : List A) → drop m (drop n xs) ≡ drop (n + m) xs
  drop-drop m zero xs = ap (λ k. drop k xs) (omega arith)
  drop-drop m (suc n) [] = drop-nil m ∙ sym (drop-nil (suc n + m))
  drop-drop m (suc n) (x ∷ xs) =
      let sum : suc (n + m) ≡ suc n + m = omega arith in
      drop-drop m n xs ∙ ap (λ k. drop k (x ∷ xs)) sum

  pub length-drop : (n : ℕ) (xs : List A) → length (drop n xs) ≡ length xs - n
  length-drop zero xs = omega arith
  length-drop (suc n) [] = omega arith
  length-drop (suc n) (x ∷ xs) = omega (arith, length-drop n xs)

  pub length-take : (n : ℕ) (xs : List A) → n ≤ length xs → length (take n xs) ≡ n
  length-take zero xs h = refl
  length-take (suc n) [] h = omega arith
  length-take (suc n) (x ∷ xs) h = ap suc (length-take n xs (omega arith))

  pub take-append-drop : (n : ℕ) (xs : List A) → take n xs ++ drop n xs ≡ xs
  take-append-drop zero xs = refl
  take-append-drop (suc n) [] = refl
  take-append-drop (suc n) (x ∷ xs) = ap (λ zs. x ∷ zs) (take-append-drop n xs)

  pub take_prefix : (xs ys : List A) → take (length xs) (xs ++ ys) ≡ xs
  take_prefix [] ys = refl
  take_prefix (x ∷ xs) ys = ap (λ zs. x ∷ zs) (take_prefix xs ys)

  pub drop_prefix : (xs ys : List A) → drop (length xs) (xs ++ ys) ≡ ys
  drop_prefix [] ys = refl
  drop_prefix (x ∷ xs) ys = drop_prefix xs ys

-- What starts with a text is the text and the rest.
pub starts_with_rest : (s p : Text) → starts_with s p ≡ true → p ++ drop (length p) s ≡ s
unfolding starts_with
starts_with_rest s [] h = refl
starts_with_rest [] (c ∷ p) h = cc
starts_with_rest (b ∷ s) (c ∷ p) h = ground (arith, starts_with_rest s p)

pub starts_with_length : (s p : Text) → starts_with s p ≡ true → length p ≤ length s
unfolding starts_with
starts_with_length s [] h = omega arith
starts_with_length [] (c ∷ p) h = cc
starts_with_length (b ∷ s) (c ∷ p) h = ground (arith, starts_with_length s p)

pub starts_with_append : (p s : Text) → starts_with (p ++ s) p ≡ true
unfolding starts_with
starts_with_append [] [] = refl
starts_with_append [] (b ∷ s) = refl
starts_with_append (c ∷ p) s = ground (arith, starts_with_append p s)
