-- ===== src/Knowledge/Cuts.antt =====
-- On the pieces that a section is cut into (agent-service/app/knowledge/chunking.py).
use productline_agent.Base.{
  Returns, Returns-map, ℕ, zero, suc, ◌+◌, ◌-◌, ◌/◌, ◌≤◌, ◌<◌, ◌≡◌, refl, sym, ap, ◌∙◌, Bool, true,
  false, Option, none, some, List, [], ◌∷◌, ◌++◌, Text, lstrip, rstrip, strip, length, take, drop,
  take-append-drop, length-take, ltb, if◌then◌else◌, Bool-cases, inl, inr, All, arith,
}
use productline_agent.Knowledge.Visible.{
  visible, joined, visible-append, joined-append, visible-lstrip, visible-strip,
}
use productline_agent.Knowledge.Paragraphs.{
  last_boundary, boundary, or_default, or_else, cut_long, split_long_paragraph, add_part, when_done,
  when_both,
}
use mathlib.Core.List.{append-nil}

-- The pieces of a text: each has a character and at most `most`, and together they have the
-- visible characters of the text in their order.
pub record AreCuts (most : ℕ) (s : Text) (parts : List Text) : Type 0 where
  pub sized : All (λ p. (0 < length p) × (length p ≤ most)) parts
  pub kept : visible (joined parts) ≡ visible s

pub length-lstrip : (s : Text) → length (lstrip s) ≤ length s
unfolding lstrip
length-lstrip [] = omega arith
length-lstrip (c ∷ s) = ground (arith, length-lstrip s)

pub length-rstrip : (s : Text) → length (rstrip s) ≤ length s
unfolding rstrip
length-rstrip [] = omega arith
length-rstrip (c ∷ s) = ground (arith, length-rstrip s)

pub length-strip : (s : Text) → length (strip s) ≤ length s
unfolding strip
length-strip s = omega (arith, length-lstrip s, length-rstrip (lstrip s))

length-drop : (n : ℕ) (s : Text) → length (drop n s) ≡ length s - n
length-drop zero s = omega arith
length-drop (suc n) [] = omega arith
length-drop (suc n) (c ∷ s) = omega (arith, length-drop n s)

abbrev Within : ℕ → ℕ → Option ℕ → Type 0
Within low high none = Unit
Within low high (some n) = (low ≤ n) × (n < high)

or_else-Within :
    (at high : ℕ) (a : Option ℕ) (b : Bool)
    → at < high
    → Within (suc at) high a
    → Within at high (or_else a (if b then some at else none))
or_else-Within at high none true h w = omega arith
or_else-Within at high none false h w = tt
or_else-Within at high (some n) b h w = omega arith

-- A boundary lies in its window, and not before the first character.
last_boundary-Within :
    (least at high : ℕ) (s : Text)
    → at + length s ≤ high
    → Within at high (last_boundary least at s)
unfolding last_boundary
last_boundary-Within least at high [] h = tt
last_boundary-Within least at high (c ∷ s) h =
    or_else-Within at high (last_boundary least (suc at) s) _ (omega arith)
      (last_boundary-Within least (suc at) high s (omega arith))

or_default_bounds :
    (most : ℕ) (o : Option ℕ)
    → 0 < most
    → Within 1 (suc most) o
    → (0 < or_default most o) × (or_default most o ≤ most)
or_default_bounds most none h w = omega arith
or_default_bounds most (some n) h w = omega arith

pub boundary_bounds :
    (most : ℕ) (s : Text) → 0 < most → (0 < boundary most s) × (boundary most s ≤ most)
unfolding boundary
boundary_bounds most s h =
    or_default_bounds most _ h (
      last_boundary-Within (most / 2) 1 (suc most) (take most s)
        (omega (arith, length-take most s)))

pub Returns-when_done :
    {A : Type 0} (P : List Text → Type 0) (Q : A → Type 0) (f : List Text → A)
    (o : Option (List Text))
    → Returns o P
    → ((ts : List Text) → P ts → Q (f ts))
    → Returns (when_done f o) Q
Returns-when_done P Q f none h k = h
Returns-when_done P Q f (some ts) h k = k ts h

pub Returns-when_both :
    {A B C : Type 0} (P : A → Type 0) (Q : B → Type 0) (R : C → Type 0) (f : A → B → C)
    (o : Option A) (o' : Option B)
    → Returns o P
    → Returns o' Q
    → ((a : A) (b : B) → P a → Q b → R (f a b))
    → Returns (when_both f o o') R
Returns-when_both P Q R f none o' h h' k = h
Returns-when_both P Q R f (some a) none h h' k = h'
Returns-when_both P Q R f (some a) (some b) h h' k = k a b h h'

pub All-append :
    {A : Type 0} (P : A → Type 0) (xs ys : List A) → All P xs → All P ys → All P (xs ++ ys)
All-append P [] ys a b = b
All-append P (x ∷ xs) ys a b = (a.0, All-append P xs ys a.1 b)

module _ (most : ℕ) where
  -- A piece in front.
  pub AreCuts-add_part :
      (p s rest : Text) (ts : List Text)
      → length p ≤ most
      → AreCuts most rest ts
      → visible s ≡ visible p ++ visible rest
      → AreCuts most s (add_part p ts)
  AreCuts-add_part [] s rest ts h cuts e = record { sized = cuts.sized; kept = cuts.kept ∙ sym e }
  AreCuts-add_part (c ∷ p) s rest ts h cuts e = record {
    sized = ((omega arith, h), cuts.sized);
    kept =
        visible-append (c ∷ p) (joined ts)
        ∙ ap (λ (l : Text). visible (c ∷ p) ++ l) cuts.kept
        ∙ sym e;
  }

  pub AreCuts-nil : (s : Text) → visible s ≡ [] → AreCuts most s []
  AreCuts-nil s e = record { sized = tt; kept = sym e }

  pub AreCuts-same :
      (s t : Text) (ts : List Text) → visible s ≡ visible t → AreCuts most s ts → AreCuts most t ts
  AreCuts-same s t ts e cuts = record { sized = cuts.sized; kept = cuts.kept ∙ e }

  pub AreCuts-append :
      (s t : Text) (xs ys : List Text)
      → AreCuts most s xs
      → AreCuts most t ys
      → AreCuts most (s ++ t) (xs ++ ys)
  AreCuts-append s t xs ys a b = record {
    sized = All-append _ xs ys a.sized b.sized;
    kept =
        ap visible (joined-append xs ys)
        ∙ visible-append (joined xs) (joined ys)
        ∙ simp (a.kept, b.kept, visible-append);
  }

  -- What is cut off in front, and what is left behind the white space.
  visible_cut :
      (n : ℕ) (s : Text) → visible s ≡ visible (strip (take n s)) ++ visible (lstrip (drop n s))
  visible_cut n s =
      simp (visible-strip, visible-lstrip)
        (sym (ap visible (take-append-drop n s)) ∙ visible-append (take n s) (drop n s))

  cut_long-AreCuts :
      (f : ℕ) (s : Text) → 0 < most → length s < f → Returns (cut_long f most s) (AreCuts most s)
  unfolding cut_long
  cut_long-AreCuts zero s pos h = omega arith
  cut_long-AreCuts (suc f) s pos h =
      let b = boundary_bounds most s pos in
      elim (Bool-cases (ltb most (length s))) [
        | inl long ↦ rw long (
            Returns-when_done (AreCuts most (lstrip (drop (boundary most s) s))) (AreCuts most s) _
              _
              (cut_long-AreCuts f (lstrip (drop (boundary most s) s)) pos (
                ground (
                  arith,
                  length-lstrip (drop (boundary most s) s),
                  length-drop (boundary most s) s,
                )))
              (λ ts cuts.
                AreCuts-add_part (strip (take (boundary most s) s)) s _ ts
                  (omega (
                    arith,
                    length-strip (take (boundary most s) s),
                    length-take (boundary most s) s,
                  ))
                  cuts (visible_cut (boundary most s) s)))
        | inr short ↦ rw short (
            AreCuts-add_part s s [] [] (ground arith) (AreCuts-nil [] refl)
              (sym (append-nil (visible s))))
      ]

  -- For every positive limit, the loop that cuts a long paragraph ends within one round more than
  -- the paragraph has characters, and each of its pieces has between one character and the limit,
  -- and the pieces have together the visible characters of the paragraph in their order.
  pub split_long_paragraph-AreCuts :
      (s : Text) → 0 < most → Returns (split_long_paragraph most s) (AreCuts most s)
  unfolding split_long_paragraph
  split_long_paragraph-AreCuts s pos =
      Returns-map (AreCuts most (strip s)) (AreCuts most s) _
        (cut_long-AreCuts (suc (length (strip s))) (strip s) pos (omega arith))
        (λ ts. AreCuts-same (strip s) s ts (visible-strip s))
