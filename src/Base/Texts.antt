-- ===== src/Base/Texts.antt =====
-- Python's `str` as the list of its code points.
use Prim.Native.Nat.{ℕ}
use Prim.Native.Char.{code}
use Prim.Native.String.{String}
use mathlib.Core.Path.{◌≡◌}
use mathlib.Core.Logic.{◌↔◌}
use mathlib.Core.Bool.{Bool, true, false, ◌&&◌, ◌||◌}
use mathlib.Core.List.{List, [], ◌∷◌}
use native.Mathlib.Omega.{arith}
use productline_agent.Base.Tests.{if◌then◌else◌, leb, nat_beq, Eq}
use productline_agent.Base.Lists.{non_empty}

abbrev pub Text : Type 0
Text = List ℕ

-- The code points of a literal.
abbrev pub codes : String → Text
codes String.[] = []
codes (String.◌∷◌ c s) = code c ∷ codes s

unfoldable pub text_beq : Text → Text → Bool
text_beq [] [] = true
text_beq [] (d ∷ t) = false
text_beq (c ∷ s) [] = false
text_beq (c ∷ s) (d ∷ t) = nat_beq c d && text_beq s t

pub text_beq_iff : (s t : Text) → (text_beq s t ≡ true) ↔ (s ≡ t)
unfolding text_beq
text_beq_iff [] [] = ground arith
text_beq_iff [] (d ∷ t) = ground arith
text_beq_iff (c ∷ s) [] = ground arith
text_beq_iff (c ∷ s) (d ∷ t) = ground (arith, text_beq_iff s t)

instance abbrev pub text_eq : Eq Text
text_eq = record { same = text_beq; same_iff = text_beq_iff }

-- `str.isspace` of one character.
unfoldable pub is_space : ℕ → Bool
is_space c =
    (leb 9 c && leb c 13)
    || (leb 28 c && leb c 32)
    || nat_beq c 0x85
    || nat_beq c 0xa0
    || nat_beq c 0x1680
    || (leb 0x2000 c && leb c 0x200a)
    || (leb 0x2028 c && leb c 0x2029)
    || nat_beq c 0x202f
    || nat_beq c 0x205f
    || nat_beq c 0x3000

-- `str.lstrip`, `str.rstrip` and `str.strip`.
unfoldable pub lstrip : Text → Text
lstrip [] = []
lstrip (c ∷ s) = let rest = lstrip s in if is_space c then rest else c ∷ s

unfoldable pub rstrip : Text → Text
rstrip [] = []
rstrip (c ∷ s) =
    let rest = rstrip s in if non_empty rest then c ∷ rest else if is_space c then [] else c ∷ []

unfoldable pub strip : Text → Text
unfolding lstrip rstrip
strip s = rstrip (lstrip s)

-- What Rust's `str::trim` takes off, which Pydantic strips by: the separators U+001C to U+001F are
-- white space for `str.isspace` only.
unfoldable pub is_white : ℕ → Bool
unfolding is_space
is_white c = is_space c && (leb c 27 || leb 32 c)

unfoldable pub ltrim : Text → Text
ltrim [] = []
ltrim (c ∷ s) = let rest = ltrim s in if is_white c then rest else c ∷ s

unfoldable pub rtrim : Text → Text
rtrim [] = []
rtrim (c ∷ s) =
    let rest = rtrim s in if non_empty rest then c ∷ rest else if is_white c then [] else c ∷ []

-- `str_strip_whitespace` of Pydantic.
unfoldable pub trim : Text → Text
unfolding ltrim rtrim
trim s = rtrim (ltrim s)
