-- ===== src/Base/Trim.antt =====
-- `trim` takes off nothing more the second time.
use Prim.Native.Nat.{ℕ}
use mathlib.Core.Path.{◌≡◌, refl, ap, ◌∙◌}
use mathlib.Core.Bool.{false}
use mathlib.Core.List.{[], ◌∷◌}
use mathlib.Core.Logic.{inl, inr}
use productline_agent.Base.Tests.{if◌then◌else◌, Bool-cases}
use productline_agent.Base.Lists.{non_empty}
use productline_agent.Base.Texts.{Text, is_white, ltrim, rtrim, trim}

-- The first character is no white space.
abbrev Begins : Text → Type 0
Begins [] = Unit
Begins (c ∷ s) = is_white c ≡ false

ltrim-Begins : (s : Text) → Begins (ltrim s)
unfolding ltrim
ltrim-Begins [] = tt
ltrim-Begins (c ∷ s) = elim (Bool-cases (is_white c)) [
  | inl space ↦ rw space (ltrim-Begins s)
  | inr ink ↦ rw ink ink
]

ltrim_begun : (s : Text) → Begins s → ltrim s ≡ s
unfolding ltrim
ltrim_begun [] h = refl
ltrim_begun (c ∷ s) h = rw h refl

rtrim-Begins : (s : Text) → Begins s → Begins (rtrim s)
unfolding rtrim
rtrim-Begins [] h = tt
rtrim-Begins (c ∷ s) h = elim (Bool-cases (non_empty (rtrim s))) [
  | inl more ↦ rw more h
  | inr over ↦ rw (over, h) h
]

kept_idem :
    (c : ℕ) (t : Text)
    → rtrim t ≡ t
    → rtrim (if non_empty t then c ∷ t else if is_white c then [] else c ∷ [])
      ≡ (if non_empty t then c ∷ t else if is_white c then [] else c ∷ [])
unfolding rtrim
kept_idem c [] e = elim (Bool-cases (is_white c)) [
  | inl space ↦ rw space refl
  | inr ink ↦ rw ink (rw ink refl)
]
kept_idem c (d ∷ t) e = rw e refl

rtrim_idem : (s : Text) → rtrim (rtrim s) ≡ rtrim s
unfolding rtrim
rtrim_idem [] = refl
rtrim_idem (c ∷ s) = kept_idem c (rtrim s) (rtrim_idem s)

pub trim_idem : (s : Text) → trim (trim s) ≡ trim s
unfolding trim
trim_idem s =
    ap rtrim (ltrim_begun (rtrim (ltrim s)) (rtrim-Begins (ltrim s) (ltrim-Begins s)))
    ∙ rtrim_idem (ltrim s)
