-- ===== src/Knowledge/Outline.antt =====
-- On the headings above a section (agent-service/app/knowledge/chunking.py).
use productline_agent.Base.{
  ℕ, ◌≤◌, ◌<◌, ◌≡◌, ◌⊎◌, refl, ap, ◌∙◌, false, ◌&&◌, Option, none, some, List, [], ◌∷◌, ◌++◌, Text,
  length, non_empty, leb, length-append, if◌then◌else◌, Bool-cases, inl, inr, arith, map, All,
  Member,
}
use mathlib.Core.List.{reverse, reverse-cons}
use productline_agent.Knowledge.Cuts.{All-append}
use productline_agent.Knowledge.Sections.{
  splitlines, run_length, Headings, outer_headings, Section, Sectioning, flushed, with_line,
  begin_section, outside_fence, at_line, section_step, section_lines, markdown_sections,
  heading_match, fence_match, heading_title, with_level, at_start,
}

-- From the innermost out, the levels fall below `limit` and stay positive.
abbrev pub AreNested : ℕ → Headings → Type 0
AreNested limit [] = Unit
AreNested limit ((l, t) ∷ hs) = (1 ≤ l) × (l < limit) × AreNested l hs

-- One of the lines is a heading of the level, and the title is what it says.
abbrev pub IsHeading : List Text → ℕ × Text → Type 0
IsHeading lines (level, title) =
    (line : Text) × (group : Text) × Member line lines
    × (heading_match line ≡ some (level, group))
    × (title ≡ heading_title group)

-- The path of a section: the title of the document where no heading is above, or else the titles
-- of nested headings among the lines from the outermost in.
pub record IsPath (title : Text) (lines : List Text) (path : List Text) : Type 0 where
  pub headings : Headings
  pub nested : AreNested 7 headings
  pub read : All (IsHeading lines) headings
  pub titles : ((headings ≡ []) × (path ≡ title ∷ [])) ⊎ (path ≡ reverse (map (λ h. h.1) headings))
  pub filled : 1 ≤ length path

abbrev pub IsSection : Text → List Text → Section → Type 0
IsSection title lines (path, content) = IsPath title lines path × (1 ≤ length content)

outer_headings-All :
    (P : ℕ × Text → Type 0) (level : ℕ) (hs : Headings) → All P hs → All P (outer_headings level hs)
unfolding outer_headings
outer_headings-All P level [] h = tt
outer_headings-All P level ((l, t) ∷ hs) h = elim (Bool-cases (leb level l)) [
  | inl inner ↦ rw inner (outer_headings-All P level hs h.1)
  | inr outer ↦ rw outer h
]

outer_headings-AreNested :
    (level limit : ℕ) (hs : Headings)
    → AreNested limit hs
    → AreNested level (outer_headings level hs)
unfolding outer_headings
outer_headings-AreNested level limit [] h = tt
outer_headings-AreNested level limit ((l, t) ∷ hs) h = elim (Bool-cases (leb level l)) [
  | inl inner ↦ rw inner (outer_headings-AreNested level l hs h.2)
  | inr outer ↦ rw outer (h.0, ground arith, h.2)
]

pub length-AreNested :
    (limit : ℕ) (hs : Headings) → AreNested limit hs → 0 < limit → length hs < limit
length-AreNested limit [] h pos = pos
length-AreNested limit ((l, t) ∷ hs) h pos = omega (arith, length-AreNested l hs h.2 (omega arith))

length_titles : (hs : Headings) → length (reverse (map (λ (h : ℕ × Text). h.1) hs)) ≡ length hs
length_titles [] = refl
length_titles ((l, t) ∷ hs) =
    let titles : List Text = map (λ (h : ℕ × Text). h.1) hs in
    let behind : length (reverse (t ∷ titles)) ≡ length (reverse titles ++ (t ∷ [])) =
      ap length (reverse-cons t titles) in
    behind ∙ length-append (reverse titles) (t ∷ []) ∙ omega (arith, length_titles hs)

-- What holds of the state of the loop.
record IsOutlined (title : Text) (lines : List Text) (st : Sectioning) : Type 0 where
  nested : AreNested 7 st.headings
  read : All (IsHeading lines) st.headings
  path : IsPath title lines st.current_path
  parts : All (IsSection title lines) st.sections

flushed_parts :
    (title : Text) (all_lines : List Text) (path : List Text) (content : Text) (ss : List Section)
    → IsPath title all_lines path
    → All (IsSection title all_lines) ss
    → All
        (IsSection title all_lines)
        (if non_empty content then ss ++ ((path, content) ∷ []) else ss)
flushed_parts title all_lines path [] ss p all = all
flushed_parts title all_lines path (c ∷ s) ss p all =
    All-append (IsSection title all_lines) ss _ all ((p, omega arith), tt)

flushed-All :
    (title : Text) (all_lines : List Text) (st : Sectioning)
    → IsOutlined title all_lines st
    → All (IsSection title all_lines) (flushed st)
unfolding flushed
flushed-All title all_lines st o =
    flushed_parts title all_lines st.current_path _ st.sections o.path o.parts

with_line-IsOutlined :
    (title line : Text) (all_lines : List Text) (st : Sectioning) (fence : Option (ℕ × ℕ))
    → IsOutlined title all_lines st
    → IsOutlined title all_lines (record (with_line line st) { fence = fence })
with_line-IsOutlined title line all_lines st fence o = record {
  nested = o.nested;
  read = o.read;
  path = o.path;
  parts = o.parts;
}

begin_section-IsOutlined :
    (title : Text) (all_lines : List Text) (level : ℕ) (heading line : Text) (st : Sectioning)
    → (1 ≤ level) × (level ≤ 6)
    → IsHeading all_lines (level, heading)
    → IsOutlined title all_lines st
    → IsOutlined title all_lines (begin_section level heading line st)
unfolding begin_section
begin_section-IsOutlined title all_lines level heading line st bounds says o =
    let nested : AreNested 7 ((level, heading) ∷ outer_headings level st.headings) =
      (bounds.0, omega arith, outer_headings-AreNested level 7 st.headings o.nested) in
    let read : All (IsHeading all_lines) ((level, heading) ∷ outer_headings level st.headings) =
      (says, outer_headings-All (IsHeading all_lines) level st.headings o.read) in
    record {
      nested = nested;
      read = read;
      path = record {
        headings = (level, heading) ∷ outer_headings level st.headings;
        nested = nested;
        read = read;
        titles = inr refl;
        filled = omega (arith, length_titles ((level, heading) ∷ outer_headings level st.headings));
      };
      parts = flushed-All title all_lines st o;
    }

abbrev IsLevel : Option (ℕ × Text) → Type 0
IsLevel none = Unit
IsLevel (some (level, t)) = (1 ≤ level) × (level ≤ 6)

with_level-IsLevel :
    (level : ℕ) (o : Option Text) → (1 ≤ level) × (level ≤ 6) → IsLevel (with_level level o)
with_level-IsLevel level none h = tt
with_level-IsLevel level (some t) h = h

heading_match-IsLevel : (line : Text) → IsLevel (heading_match line)
unfolding heading_match
heading_match-IsLevel line =
    elim (Bool-cases (leb 1 (run_length 35 line) && leb (run_length 35 line) 6)) [
      | inl found ↦ rw found (with_level-IsLevel (run_length 35 line) _ (ground arith))
      | inr other ↦ rw other tt
    ]

outside_fence-IsOutlined :
    (title line : Text) (all_lines : List Text) (st : Sectioning) (mark : Option (ℕ × ℕ))
    (heading : Option (ℕ × Text))
    → IsLevel heading
    → Member line all_lines
    → heading_match line ≡ heading
    → IsOutlined title all_lines st
    → IsOutlined title all_lines (outside_fence line st mark heading)
outside_fence-IsOutlined title line all_lines st (some mark) heading h m e o =
    with_line-IsOutlined title line all_lines st (some mark) o
outside_fence-IsOutlined title line all_lines st none none h m e o =
    with_line-IsOutlined title line all_lines st st.fence o
outside_fence-IsOutlined title line all_lines st none (some (level, group)) h m e o =
    begin_section-IsOutlined title all_lines level (heading_title group) line st h
      (line, group, m, e, refl) o

at_line-IsOutlined :
    (title line : Text) (all_lines : List Text) (st : Sectioning) (fence : Option (ℕ × ℕ))
    → Member line all_lines
    → IsOutlined title all_lines st
    → IsOutlined title all_lines (at_line line st fence)
at_line-IsOutlined title line all_lines st none m o =
    outside_fence-IsOutlined title line all_lines st (fence_match line) (heading_match line)
      (heading_match-IsLevel line) m refl o
at_line-IsOutlined title line all_lines st (some mark) m o =
    with_line-IsOutlined title line all_lines st _ o

section_lines-IsOutlined :
    (title : Text) (all_lines lines : List Text) (st : Sectioning)
    → ((line : Text) → Member line lines → Member line all_lines)
    → IsOutlined title all_lines st
    → IsOutlined title all_lines (section_lines lines st)
unfolding section_lines section_step
section_lines-IsOutlined title all_lines [] st among o = o
section_lines-IsOutlined title all_lines (line ∷ lines) st among o =
    section_lines-IsOutlined title all_lines lines (section_step line st) (λ u m. among u (inr m))
      (at_line-IsOutlined title line all_lines st st.fence (among line (inl refl)) o)

-- Every section has a path and a content.
pub markdown_sections-All :
    (title content : Text)
    → All (IsSection title (splitlines false content)) (markdown_sections title content)
unfolding markdown_sections
markdown_sections-All title content =
    let lines : List Text = splitlines false content in
    flushed-All title lines (section_lines lines (at_start title)) (
      section_lines-IsOutlined title lines lines (at_start title) (λ u m. m)
        (record {
          nested = tt;
          read = tt;
          path = record {
            headings = [];
            nested = tt;
            read = tt;
            titles = inl (refl, refl);
            filled = omega arith;
          };
          parts = tt;
        }))
