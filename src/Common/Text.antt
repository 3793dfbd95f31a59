-- ===== src/Common/Text.antt =====
-- Texts as lists of code points, with what the program uses of `str`.
use Prim.Native.Char.{code}
use Prim.Native.String.{String}
use Prim.Native.Nat.{ℕ, ◌<◌}
use mathlib.Core.Path.{◌≡◌, refl}
use mathlib.Core.Logic.{◌↔◌}
use mathlib.Core.Bool.{Bool, true, false, ◌&&◌, ◌||◌}
use mathlib.Core.Option.{Option, none, some}
use mathlib.Core.List.{List, [], ◌∷◌, ◌++◌, map}
use native.Mathlib.Omega.{arith}
use doggy_dns.Common.Tests.{leb, ◌==◌, if◌then◌else◌}
use doggy_dns.Common.Lists.{length}
use doggy_dns.Common.Bytes.{to_ascii_lowercase}

abbrev pub Text : Type 0
Text = List ℕ

-- The code points of a literal.
abbrev pub text : String → Text
text String.[] = []
text (String.◌∷◌ c s) = code c ∷ text s

abbrev pub text_eq : Text → Text → Bool
text_eq [] [] = true
text_eq [] (_ ∷ _) = false
text_eq (_ ∷ _) [] = false
text_eq (x ∷ xs) (y ∷ ys) = (x == y) && text_eq xs ys

abbrev pub is_empty : Text → Bool
is_empty [] = true
is_empty (_ ∷ _) = false

abbrev pub lowercase : Text → Text
lowercase s = map to_ascii_lowercase s

-- char::is_whitespace
abbrev pub is_whitespace : ℕ → Bool
is_whitespace c =
    (leb 9 c && leb c 13)
    || (c == 32)
    || (c == 133)
    || (c == 160)
    || (c == 0x1680)
    || (leb 0x2000 c && leb c 0x200A)
    || (c == 0x2028)
    || (c == 0x2029)
    || (c == 0x202F)
    || (c == 0x205F)
    || (c == 0x3000)

abbrev pub trim_start : Text → Text
trim_start [] = []
trim_start (c ∷ s) = if is_whitespace c then trim_start s else c ∷ s

-- The text without the final characters of which the test holds.
abbrev pub trim_end_by : (ℕ → Bool) → Text → Text
trim_end_by p [] = []
trim_end_by p (c ∷ s) = let rest = trim_end_by p s in if p c && is_empty rest then [] else c ∷ rest

abbrev pub trim : Text → Text
trim s = trim_end_by is_whitespace (trim_start s)

abbrev pub is_blank : Text → Bool
is_blank s = is_empty (trim s)

abbrev pub starts_with : Text → Text → Bool
starts_with s [] = true
starts_with [] (_ ∷ _) = false
starts_with (c ∷ s) (p ∷ ps) = (c == p) && starts_with s ps

-- `contains` of a text.
abbrev pub contains_text : Text → Text → Bool
contains_text [] p = starts_with [] p
contains_text (c ∷ s) p = starts_with (c ∷ s) p || contains_text s p

abbrev pub ends_with : Text → Text → Bool
ends_with [] p = is_empty p
ends_with (c ∷ s) p = text_eq (c ∷ s) p || ends_with s p

-- `split_once` at a character.
abbrev pub split_once : ℕ → Text → Option (Text × Text)
split_once d [] = none
split_once d (c ∷ s) =
    let rest = split_once d s in
    if c == d
    then some ([], s)
    else elim rest [ none ↦ none | some (before, after) ↦ some (c ∷ before, after) ]

-- A part with its first character put before it.
abbrev pub push_first : ℕ → List Text → List Text
push_first c [] = (c ∷ []) ∷ []
push_first c (part ∷ parts) = (c ∷ part) ∷ parts

-- `split` at a character: one part and more.
abbrev pub split_on : ℕ → Text → List Text
split_on d [] = [] ∷ []
split_on d (c ∷ s) = let rest = split_on d s in if c == d then [] ∷ rest else push_first c rest

pub text_eq_iff : (s t : Text) → (text_eq s t ≡ true) ↔ (s ≡ t)
text_eq_iff [] [] = ((λ h. refl), (λ h. refl))
text_eq_iff [] (y ∷ ys) = ((λ h. cc), (λ h. cc))
text_eq_iff (x ∷ xs) [] = ((λ h. cc), (λ h. cc))
text_eq_iff (x ∷ xs) (y ∷ ys) =
    ((λ h. ground (arith, text_eq_iff xs ys)), (λ h. ground (arith, text_eq_iff xs ys)))

-- A part that lacks the character is the part before its first occurrence.
pub split_once-append :
    (d : ℕ) (before after : Text)
    → split_once d before ≡ none
    → split_once d (before ++ (d ∷ after)) ≡ some (before, after)
split_once-append d [] after h = ground arith
split_once-append d (c ∷ s) after h = ground (arith, split_once-append d s after)

-- What stands after a split point is shorter than the bound.
abbrev pub SplitsBelow : ℕ → Option (Text × Text) → Type 0
SplitsBelow n none = Unit
SplitsBelow n (some parts) = length parts.1 < n

pub split_once-SplitsBelow : (d : ℕ) (s : Text) → SplitsBelow (length s) (split_once d s)
split_once-SplitsBelow d [] = tt
split_once-SplitsBelow d (c ∷ s) = ground (arith, split_once-SplitsBelow d s)
