-- ===== src/Knowledge/Visible.antt =====
-- What is left of a text without its white space, over the cutting and joining of texts.
use productline_agent.Base.{
  ℕ, ◌≡◌, refl, sym, ap, ◌∙◌, true, false, not, List, [], ◌∷◌, ◌++◌, Text, is_space, lstrip, rstrip,
  strip, keep_if, non_empty, if◌then◌else◌, Bool-cases, inl, inr,
}
use mathlib.Core.List.{append_assoc}

-- The characters that are no white space.
abbrev pub visible : Text → Text
visible = keep_if (λ c. not (is_space c))

-- Texts one behind the other.
abbrev pub joined : List Text → Text
joined [] = []
joined (t ∷ ts) = t ++ joined ts

pub visible_space : (c : ℕ) (s : Text) → is_space c ≡ true → visible (c ∷ s) ≡ visible s
visible_space c s space = rw space refl

pub visible_ink : (c : ℕ) (s : Text) → is_space c ≡ false → visible (c ∷ s) ≡ c ∷ visible s
visible_ink c s ink = rw ink refl

pub visible-append : (s t : Text) → visible (s ++ t) ≡ visible s ++ visible t
visible-append [] t = refl
visible-append (c ∷ s) t = elim (Bool-cases (is_space c)) [
  | inl space ↦ rw space (visible-append s t)
  | inr ink ↦ rw ink (ap (λ (l : Text). c ∷ l) (visible-append s t))
]

pub joined-append : (xs ys : List Text) → joined (xs ++ ys) ≡ joined xs ++ joined ys
joined-append [] ys = refl
joined-append (x ∷ xs) ys = simp (joined-append xs ys, append_assoc)

pub visible-lstrip : (s : Text) → visible (lstrip s) ≡ visible s
unfolding lstrip
visible-lstrip [] = refl
visible-lstrip (c ∷ s) = elim (Bool-cases (is_space c)) [
  | inl space ↦ cc (visible-lstrip s, visible_space c s space, space)
  | inr ink ↦ cc ink
]

kept_end :
    (c : ℕ) (s t : Text)
    → visible t ≡ visible s
    → visible (if non_empty t then c ∷ t else if is_space c then [] else c ∷ []) ≡ visible (c ∷ s)
kept_end c s [] e = elim (Bool-cases (is_space c)) [
  | inl space ↦ rw space e
  | inr ink ↦
      let kept : ◌≡◌ {A = Text} (if is_space c then [] else c ∷ []) (c ∷ []) = rw ink refl in
      ap visible kept
      ∙ visible_ink c [] ink
      ∙ ap (λ (l : Text). c ∷ l) e
      ∙ sym (visible_ink c s ink)
]
kept_end c s (d ∷ t) e = ap (λ (l : Text). if not (is_space c) then c ∷ l else l) e

pub visible-rstrip : (s : Text) → visible (rstrip s) ≡ visible s
unfolding rstrip
visible-rstrip [] = refl
visible-rstrip (c ∷ s) = kept_end c s (rstrip s) (visible-rstrip s)

pub visible-strip : (s : Text) → visible (strip s) ≡ visible s
unfolding strip
visible-strip s = visible-rstrip (lstrip s) ∙ visible-lstrip s
