-- ===== src/Knowledge/Headings.antt =====
-- On the sections of a Markdown document (agent-service/app/knowledge/chunking.py).
use productline_agent.Base.{
  ℕ, ◌≡◌, refl, sym, ap, ◌∙◌, Bool, true, false, ◌&&◌, Option, none, some, List, [], ◌∷◌, ◌++◌,
  Text, strip, non_empty, is_space, nat_beq, if◌then◌else◌, Bool-cases, inl, inr, arith,
}
use mathlib.Core.List.{append-nil, append_assoc}
use productline_agent.Knowledge.Visible.{
  visible, joined, visible-append, joined-append, visible-strip, visible_space,
}
use productline_agent.Knowledge.Gaps.{space_of_newline, onto_first-visible}
use productline_agent.Knowledge.Sections.{
  is_line_end, splitlines, join_lines, Section, Sectioning, flushed, with_line, begin_section,
  outside_fence, at_line, section_step, section_lines, markdown_sections, heading_match,
  fence_match, heading_title, at_start,
}

abbrev pub contents : List Section → List Text
contents [] = []
contents ((path, t) ∷ ss) = t ∷ contents ss

pub contents-append : (xs ys : List Section) → contents (xs ++ ys) ≡ contents xs ++ contents ys
contents-append [] ys = refl
contents-append (x ∷ xs) ys = ap (λ (l : List Text). x.1 ∷ l) (contents-append xs ys)

space_of_line_end : (c : ℕ) → is_line_end c ≡ true → is_space c ≡ true
unfolding is_line_end is_space
space_of_line_end c h = ground arith

splitlines-visible :
    (returned : Bool) (s : Text) → visible (joined (splitlines returned s)) ≡ visible s
unfolding splitlines
splitlines-visible returned [] = refl
splitlines-visible returned (c ∷ s) = elim (Bool-cases (returned && nat_beq c 10)) [
  | inl second ↦ rw second (
      splitlines-visible (nat_beq c 13) s
      ∙ sym (visible_space c s (space_of_newline c (ground arith))))
  | inr first ↦ rw first (elim (Bool-cases (is_line_end c)) [
    | inl end ↦
        rw end
          (splitlines-visible (nat_beq c 13) s ∙ sym (visible_space c s (space_of_line_end c end)))
    | inr within ↦
        rw within (
          onto_first-visible c s (splitlines (nat_beq c 13) s)
            (splitlines-visible (nat_beq c 13) s))
  ])
]

join_lines-visible : (ts : List Text) → visible (join_lines ts) ≡ visible (joined ts)
unfolding join_lines
join_lines-visible [] = refl
join_lines-visible (t ∷ []) = sym (ap visible (append-nil t))
join_lines-visible (t ∷ u ∷ ts) =
    visible-append t (10 ∷ join_lines (u ∷ ts))
    ∙ ap (λ (l : Text). visible t ++ l)
        (visible_space 10 (join_lines (u ∷ ts)) (space_of_newline 10 refl)
          ∙ join_lines-visible (u ∷ ts))
    ∙ sym (visible-append t (joined (u ∷ ts)))

-- The visible characters of the sections, and of the lines that are still to be flushed.
abbrev seen : Sectioning → Text
seen st = visible (joined (contents st.sections) ++ joined st.current_lines)

with_section-visible :
    (path : List Text) (content : Text) (ss : List Section)
    → visible (joined (contents (if non_empty content then ss ++ ((path, content) ∷ []) else ss)))
      ≡ visible (joined (contents ss) ++ content)
with_section-visible path [] ss = ap visible (sym (append-nil (joined (contents ss))))
with_section-visible path (c ∷ t) ss =
    ap (λ (l : List Text). visible (joined l)) (contents-append ss ((path, c ∷ t) ∷ []))
    ∙ ap visible (joined-append (contents ss) ((c ∷ t) ∷ []))
    ∙ ap (λ (l : Text). visible (joined (contents ss) ++ l)) (append-nil (c ∷ t))

flushed-visible : (st : Sectioning) → visible (joined (contents (flushed st))) ≡ seen st
unfolding flushed
flushed-visible st =
    with_section-visible st.current_path (strip (join_lines st.current_lines)) st.sections
    ∙ visible-append (joined (contents st.sections)) (strip (join_lines st.current_lines))
    ∙ ap (λ (l : Text). visible (joined (contents st.sections)) ++ l)
        (visible-strip (join_lines st.current_lines) ∙ join_lines-visible st.current_lines)
    ∙ sym (visible-append (joined (contents st.sections)) (joined st.current_lines))

with_line-seen :
    (line : Text) (st : Sectioning) → seen (with_line line st) ≡ seen st ++ visible line
with_line-seen line st =
    ap (λ (l : Text). visible (joined (contents st.sections) ++ l))
      (joined-append st.current_lines (line ∷ [])
        ∙ ap (λ (l : Text). joined st.current_lines ++ l) (append-nil line))
    ∙ ap visible (sym (append_assoc (joined (contents st.sections)) (joined st.current_lines) line))
    ∙ visible-append (joined (contents st.sections) ++ joined st.current_lines) line

begin_section-seen :
    (level : ℕ) (title line : Text) (st : Sectioning)
    → seen (begin_section level title line st) ≡ seen st ++ visible line
unfolding begin_section
begin_section-seen level title line st =
    visible-append (joined (contents (flushed st))) (line ++ [])
    ∙ ap (λ (l : Text). l ++ visible (line ++ [])) (flushed-visible st)
    ∙ ap (λ (l : Text). seen st ++ visible l) (append-nil line)

outside_fence-seen :
    (line : Text) (st : Sectioning) (mark : Option (ℕ × ℕ)) (heading : Option (ℕ × Text))
    → seen (outside_fence line st mark heading) ≡ seen st ++ visible line
outside_fence-seen line st (some mark) heading = with_line-seen line st
outside_fence-seen line st none none = with_line-seen line st
outside_fence-seen line st none (some (level, group)) =
    begin_section-seen level (heading_title group) line st

at_line-seen :
    (line : Text) (st : Sectioning) (fence : Option (ℕ × ℕ))
    → seen (at_line line st fence) ≡ seen st ++ visible line
at_line-seen line st none = outside_fence-seen line st (fence_match line) (heading_match line)
at_line-seen line st (some mark) = with_line-seen line st

section_lines-seen :
    (lines : List Text) (st : Sectioning)
    → seen (section_lines lines st) ≡ seen st ++ visible (joined lines)
unfolding section_lines section_step
section_lines-seen [] st = sym (append-nil (seen st))
section_lines-seen (line ∷ lines) st =
    section_lines-seen lines (section_step line st)
    ∙ ap (λ (l : Text). l ++ visible (joined lines)) (at_line-seen line st st.fence)
    ∙ append_assoc (seen st) (visible line) (visible (joined lines))
    ∙ ap (λ (l : Text). seen st ++ l) (sym (visible-append line (joined lines)))

-- The contents of the sections of a Markdown document, one behind the other, have the visible
-- characters of the document in their order, the lines of the headings and of code fences
-- included.
pub markdown_sections-visible :
    (title content : Text)
    → visible (joined (contents (markdown_sections title content))) ≡ visible content
unfolding markdown_sections
markdown_sections-visible title content =
    flushed-visible (section_lines (splitlines false content) (at_start title))
    ∙ section_lines-seen (splitlines false content) (at_start title)
    ∙ splitlines-visible false content
