-- ===== src/Prelude/Strings.antt =====
-- Text as the list of its Unicode scalar values, with equality, the length in UTF-8 bytes, and
-- the character tests of the standard library that the program calls.
use Prim.Native.Nat.{ℕ, ◌+◌}
use Prim.Native.Char.{code}
use Prim.Native.String.{String}
use mathlib.Core.Path.{◌≡◌, refl}
use mathlib.Core.Logic.{◌↔◌}
use mathlib.Core.Bool.{Bool, true, false, ◌&&◌, ◌||◌}
use mathlib.Core.Option.{Option, none, some}
use mathlib.Core.List.{List, [], ◌∷◌}
use native.Mathlib.Omega.{arith}
use agent_workspace_hub.Prelude.Tests.{ltb, leb, ◌==◌, if◌then◌else◌}

abbrev pub Text : Type 0
Text = List ℕ

abbrev pub codes : String → Text
codes String.[] = []
codes (String.◌∷◌ c s) = code c ∷ codes s

unfoldable pub text_eq : Text → Text → Bool
text_eq [] [] = true
text_eq [] (y ∷ ys) = false
text_eq (x ∷ xs) [] = false
text_eq (x ∷ xs) (y ∷ ys) = x == y && text_eq xs ys

pub text_eq_iff : (a b : Text) → (text_eq a b ≡ true) ↔ (a ≡ b)
unfolding text_eq
text_eq_iff [] [] = (λ _. refl, λ _. refl)
text_eq_iff [] (y ∷ ys) = (λ h. cc, λ h. cc)
text_eq_iff (x ∷ xs) [] = (λ h. cc, λ h. cc)
text_eq_iff (x ∷ xs) (y ∷ ys) = ground (arith, text_eq_iff xs ys)

pub text_eq_refl : (a : Text) → text_eq a a ≡ true
text_eq_refl a = (text_eq_iff a a).1 refl

-- `==` on `Option<&str>`.
abbrev pub option_text_eq : Option Text → Option Text → Bool
option_text_eq none none = true
option_text_eq none (some b) = false
option_text_eq (some a) none = false
option_text_eq (some a) (some b) = text_eq a b

-- The number of bytes that UTF-8 uses for one scalar value.
unfoldable pub len_utf8 : ℕ → ℕ
len_utf8 c = if ltb c 0x80 then 1 else if ltb c 0x800 then 2 else if ltb c 0x10000 then 3 else 4

-- `str::len`: bytes, not characters.
unfoldable pub byte_len : Text → ℕ
byte_len [] = 0
byte_len (c ∷ cs) = len_utf8 c + byte_len cs

abbrev pub is_empty : Text → Bool
is_empty [] = true
is_empty (c ∷ cs) = false

-- `str::starts_with` and `str::contains` with a text.
unfoldable pub starts_with : Text → Text → Bool
starts_with s [] = true
starts_with [] (p ∷ ps) = false
starts_with (c ∷ cs) (p ∷ ps) = c == p && starts_with cs ps

unfoldable pub contains : Text → Text → Bool
unfolding starts_with
contains [] p = starts_with [] p
contains (c ∷ cs) p = starts_with (c ∷ cs) p || contains cs p

-- `str::contains` with a character.
unfoldable pub has_char : ℕ → Text → Bool
has_char k [] = false
has_char k (c ∷ cs) = c == k || has_char k cs

-- `char::is_control`: the Unicode category Cc.
unfoldable pub is_control : ℕ → Bool
is_control c = ltb c 0x20 || (leb 0x7f c && leb c 0x9f)

-- `char::is_whitespace`: the Unicode property White_Space.
unfoldable pub is_whitespace : ℕ → Bool
is_whitespace c =
    (leb 0x09 c && leb c 0x0d)
    || c == 0x20
    || c == 0x85
    || c == 0xa0
    || c == 0x1680
    || (leb 0x2000 c && leb c 0x200a)
    || c == 0x2028
    || c == 0x2029
    || c == 0x202f
    || c == 0x205f
    || c == 0x3000

unfoldable pub is_ascii_alphabetic : ℕ → Bool
is_ascii_alphabetic c = (leb b'A' c && leb c b'Z') || (leb b'a' c && leb c b'z')

unfoldable pub is_ascii_alphanumeric : ℕ → Bool
unfolding is_ascii_alphabetic
is_ascii_alphanumeric c = is_ascii_alphabetic c || (leb b'0' c && leb c b'9')

-- `s.trim().is_empty()`.
unfoldable pub is_blank : Text → Bool
unfolding is_whitespace
is_blank [] = true
is_blank (c ∷ cs) = is_whitespace c && is_blank cs

-- `str::split` at one character. The parts of a text are never none.
unfoldable pub split_first : ℕ → Text → Text
split_first k [] = []
split_first k (c ∷ cs) = if c == k then [] else c ∷ split_first k cs

unfoldable pub split_rest : ℕ → Text → List Text
unfolding split_first
split_rest k [] = []
split_rest k (c ∷ cs) =
    let rest = split_rest k cs in if c == k then split_first k cs ∷ rest else rest

unfoldable pub split : ℕ → Text → List Text
unfolding split_rest
split k s = split_first k s ∷ split_rest k s
