-- ===== src/Prelude/Text.antt =====
-- Texts as lists of code points, with the string methods that the program uses, over ASCII.
use Prim.Native.Nat.{ℕ, ◌+◌}
use Prim.Native.String.{String}
use Prim.Native.Char.{code}
use mathlib.Core.Path.{◌≡◌, refl}
use mathlib.Core.Logic.{◌↔◌}
use mathlib.Core.Bool.{Bool, true, false, ◌&&◌, ◌||◌}
use mathlib.Core.List.{List, [], ◌∷◌, map, reverse}
use native.Mathlib.Omega.{arith}
use superviseur.Prelude.Tests.{nat_beq, leb, Eq, if◌then◌else◌}

abbrev pub Text : Type 0
Text = List ℕ

-- The code points of a literal.
abbrev pub codes : String → Text
codes String.[] = []
codes (String.◌∷◌ c s) = code c ∷ codes s

abbrev pub same_text : Text → Text → Bool
same_text [] [] = true
same_text (a ∷ rest) (b ∷ bs) = nat_beq a b && same_text rest bs
same_text _ _ = false

pub same_text_iff : (xs ys : Text) → (same_text xs ys ≡ true) ↔ (xs ≡ ys)
same_text_iff [] [] = ground arith
same_text_iff [] (y ∷ ys) = ground arith
same_text_iff (x ∷ xs) [] = ground arith
same_text_iff (x ∷ xs) (y ∷ ys) = ground (arith, same_text_iff xs ys)

instance abbrev pub text_eq : Eq Text
text_eq = record { agree = same_text; agree_iff = same_text_iff }

-- `str.lower`
abbrev pub lower : ℕ → ℕ
lower c = if leb b'A' c && leb c b'Z' then c + 32 else c

abbrev pub is_space : ℕ → Bool
is_space c = (leb 9 c && leb c 13) || (leb 28 c && leb c 32)

abbrev pub strip_left : Text → Text
strip_left [] = []
strip_left (c ∷ cs) = let rest = strip_left cs in if is_space c then rest else c ∷ cs

-- `str.strip`
abbrev pub strip : Text → Text
strip cs = reverse (strip_left (reverse (strip_left cs)))

pub lower-lower : (c : ℕ) → lower (lower c) ≡ lower c
lower-lower c = ground arith

pub lower_all-lower_all : (cs : Text) → map lower (map lower cs) ≡ map lower cs
lower_all-lower_all [] = refl
lower_all-lower_all (c ∷ cs) = λ i. lower-lower c i ∷ lower_all-lower_all cs i
