-- ===== src/Knowledge/Gaps.antt =====
-- On the paragraphs of a section and the pieces that they fill (agent-service/app/knowledge/chunking.py).
use productline_agent.Base.{
  Returns, Returns-map, ℕ, zero, suc, ◌+◌, ◌≤◌, ◌<◌, ◌≡◌, refl, sym, ap, ◌∙◌, true, List, [], ◌∷◌,
  ◌++◌, Text, strip, length, drop, is_space, ltb, leb, nat_beq, not, if◌then◌else◌, Bool-cases, inl,
  inr, arith,
}
use mathlib.Core.List.{append_assoc}
use productline_agent.Knowledge.Visible.{
  visible, joined, visible-append, visible-strip, visible_space,
}
use productline_agent.Knowledge.Paragraphs.{
  count_blanks, count_newlines, gap, onto_first, split_gaps, stripped_parts, appended, combine,
  split_oversized_text, add_part, is_blank,
}
use productline_agent.Knowledge.Cuts.{
  AreCuts, AreCuts-add_part, AreCuts-nil, AreCuts-same, AreCuts-append, Returns-when_done,
  Returns-when_both, split_long_paragraph-AreCuts,
}

space_of_blank : (c : ℕ) → is_blank c ≡ true → is_space c ≡ true
unfolding is_space
space_of_blank c h = ground arith

pub space_of_newline : (c : ℕ) → nat_beq c 10 ≡ true → is_space c ≡ true
unfolding is_space
space_of_newline c h = ground arith

count_blanks-visible : (s : Text) → visible (drop (count_blanks s) s) ≡ visible s
unfolding count_blanks
count_blanks-visible [] = refl
count_blanks-visible (c ∷ s) = elim (Bool-cases (is_blank c)) [
  | inl blank ↦ rw blank (count_blanks-visible s ∙ sym (visible_space c s (space_of_blank c blank)))
  | inr other ↦ rw other refl
]

count_newlines-visible : (s : Text) → visible (drop (count_newlines s) s) ≡ visible s
unfolding count_newlines
count_newlines-visible [] = refl
count_newlines-visible (c ∷ s) = elim (Bool-cases (nat_beq c 10)) [
  | inl newline ↦
      rw newline (count_newlines-visible s ∙ sym (visible_space c s (space_of_newline c newline)))
  | inr other ↦ rw other refl
]

drop-nil : (n : ℕ) → drop {A = ℕ} n [] ≡ []
drop-nil zero = refl
drop-nil (suc n) = refl

drop-add : (a b : ℕ) (s : Text) → drop (a + b) s ≡ drop b (drop a s)
drop-add zero b s = ap (λ (n : ℕ). drop n s) (omega arith)
drop-add (suc a) b [] = drop-nil (suc a + b) ∙ sym (drop-nil b)
drop-add (suc a) b (c ∷ s) =
    let e : suc a + b ≡ suc (a + b) = omega arith in
    ap (λ (n : ℕ). drop n (c ∷ s)) e ∙ drop-add a b s

gap_found :
    (c : ℕ) (s : Text)
    → ltb 0 (gap (c ∷ s)) ≡ true
    → (nat_beq c 10 ≡ true)
      × (gap (c ∷ s) ≡ count_blanks s + count_newlines (drop (count_blanks s) s))
unfolding gap
gap_found c s h = ground arith

-- What separates two paragraphs is white space.
gap-visible :
    (c : ℕ) (s : Text)
    → ltb 0 (gap (c ∷ s)) ≡ true
    → visible (drop (gap (c ∷ s)) s) ≡ visible (c ∷ s)
gap-visible c s h =
    let (newline, e) = gap_found c s h in
    ap (λ (n : ℕ). visible (drop n s)) e
    ∙ ap visible (drop-add (count_blanks s) (count_newlines (drop (count_blanks s) s)) s)
    ∙ count_newlines-visible (drop (count_blanks s) s)
    ∙ count_blanks-visible s
    ∙ sym (visible_space c s (space_of_newline c newline))

joined-onto_first : (c : ℕ) (ts : List Text) → joined (onto_first c ts) ≡ c ∷ joined ts
joined-onto_first c [] = refl
joined-onto_first c (t ∷ ts) = refl

pub onto_first-visible :
    (c : ℕ) (s : Text) (ts : List Text)
    → visible (joined ts) ≡ visible s
    → visible (joined (onto_first c ts)) ≡ visible (c ∷ s)
onto_first-visible c s ts e =
    ap visible (joined-onto_first c ts) ∙ ap (λ (l : Text). if not (is_space c) then c ∷ l else l) e

split_gaps-visible : (n : ℕ) (s : Text) → visible (joined (split_gaps n s)) ≡ visible (drop n s)
unfolding split_gaps
split_gaps-visible zero [] = refl
split_gaps-visible (suc n) [] = refl
split_gaps-visible (suc n) (c ∷ s) = split_gaps-visible n s
split_gaps-visible zero (c ∷ s) = elim (Bool-cases (ltb 0 (gap (c ∷ s)))) [
  | inl found ↦ rw found (split_gaps-visible (gap (c ∷ s)) s ∙ gap-visible c s found)
  | inr other ↦
      let none_here : gap (c ∷ s) ≡ 0 = ground arith in
      rw other (
        onto_first-visible c s (split_gaps (gap (c ∷ s)) s)
          (split_gaps-visible (gap (c ∷ s)) s ∙ ap (λ (n : ℕ). visible (drop n s)) none_here))
]

add_part-visible :
    (p : Text) (ts : List Text)
    → visible (joined (add_part p ts)) ≡ visible p ++ visible (joined ts)
add_part-visible [] ts = refl
add_part-visible (c ∷ p) ts = visible-append (c ∷ p) (joined ts)

stripped_parts-visible :
    (ts : List Text) → visible (joined (stripped_parts ts)) ≡ visible (joined ts)
unfolding stripped_parts
stripped_parts-visible [] = refl
stripped_parts-visible (t ∷ ts) =
    add_part-visible (strip t) (stripped_parts ts)
    ∙ ap (λ (l : Text). l ++ visible (joined (stripped_parts ts))) (visible-strip t)
    ∙ ap (λ (l : Text). visible t ++ l) (stripped_parts-visible ts)
    ∙ sym (visible-append t (joined ts))

appended-visible : (s p : Text) → visible (appended s p) ≡ visible (s ++ p)
appended-visible [] p = refl
appended-visible (c ∷ s) p =
    visible-append (c ∷ s) (10 ∷ 10 ∷ p)
    ∙ ap (λ (l : Text). visible (c ∷ s) ++ l)
        (visible_space 10 (10 ∷ p) (space_of_newline 10 refl)
          ∙ visible_space 10 p (space_of_newline 10 refl))
    ∙ sym (visible-append (c ∷ s) p)

appended-joined : (s p t : Text) → visible (appended s p ++ t) ≡ visible (s ++ (p ++ t))
appended-joined s p t =
    visible-append (appended s p) t
    ∙ ap (λ (l : Text). l ++ visible t) (appended-visible s p)
    ∙ sym (visible-append (s ++ p) t)
    ∙ ap visible (append_assoc s p t)

module _ (most : ℕ) (pos : 0 < most) where
  combine-AreCuts :
      (current : Text) (ps : List Text)
      → length current ≤ most
      → Returns (combine most current ps) (AreCuts most (current ++ joined ps))
  unfolding combine
  combine-AreCuts current [] h =
      AreCuts-add_part most current (current ++ []) [] [] h (AreCuts-nil most [] refl)
        (visible-append current [])
  combine-AreCuts current (p ∷ ps) h = elim (Bool-cases (leb (length (appended current p)) most)) [
    | inl fits ↦ rw fits (
        Returns-map (AreCuts most (appended current p ++ joined ps)) _ _
          (combine-AreCuts (appended current p) ps (ground arith))
          (λ ts. AreCuts-same most _ _ ts (appended-joined current p (joined ps))))
    | inr full ↦ rw full (elim (Bool-cases (leb (length p) most)) [
      | inl short ↦ rw short (
          Returns-when_done (AreCuts most (p ++ joined ps)) _ _ _
            (combine-AreCuts p ps (ground arith))
            (λ ts cuts. AreCuts-add_part most current _ _ ts h cuts (visible-append current _)))
      | inr long ↦ rw long (
          Returns-when_both (AreCuts most p) (AreCuts most (joined ps)) _ _ _ _
            (split_long_paragraph-AreCuts most p pos) (combine-AreCuts [] ps (omega arith))
            (λ cut later a b.
              AreCuts-add_part most current _ (p ++ joined ps) _ h
                (AreCuts-append most p (joined ps) cut later a b) (visible-append current _)))
    ])
  ]

  -- For every positive limit, the splitting of a section returns on every text, and each of its
  -- pieces has between one character and the limit, and the pieces have together the visible
  -- characters of the text in their order.
  pub split_oversized_text-AreCuts :
      (text : Text) → Returns (split_oversized_text most text) (AreCuts most text)
  unfolding split_oversized_text
  split_oversized_text-AreCuts text =
      Returns-map (AreCuts most (joined (stripped_parts (split_gaps 0 text)))) _ _
        (combine-AreCuts [] (stripped_parts (split_gaps 0 text)) (omega arith))
        (λ ts.
          AreCuts-same most _ text ts
            (stripped_parts-visible (split_gaps 0 text) ∙ split_gaps-visible 0 text))
