-- ===== src/Knowledge/Sections.antt =====
-- The sections of a Markdown document (agent-service/app/knowledge/chunking.py, `_markdown_sections`).
use productline_agent.Base.{
  ℕ, suc, ◌-◌, Bool, false, ◌&&◌, ◌||◌, Option, none, some, List, [], ◌∷◌, ◌++◌, Text, strip,
  length, drop, non_empty, ltb, leb, nat_beq, if◌then◌else◌, map,
}
use mathlib.Core.List.{reverse}
use productline_agent.Knowledge.Paragraphs.{is_blank, count_blanks, onto_first}

-- What ends a line for `str.splitlines`.
unfoldable pub is_line_end : ℕ → Bool
is_line_end c =
    (leb 10 c && leb c 13)
    || (leb 28 c && leb c 30)
    || nat_beq c 0x85
    || nat_beq c 0x2028
    || nat_beq c 0x2029

-- `str.splitlines`; the flag says that a carriage return stands before.
unfoldable pub splitlines : Bool → Text → List Text
unfolding is_line_end
splitlines returned [] = []
splitlines returned (c ∷ s) =
    let rest = splitlines (nat_beq c 13) s in
    if returned && nat_beq c 10
    then rest
    else if is_line_end c
    then [] ∷ rest
    else onto_first c rest

-- How often `c` stands at the beginning.
unfoldable pub run_length : ℕ → Text → ℕ
run_length c [] = 0
run_length c (d ∷ s) = let rest = run_length c s in if nat_beq d c then suc rest else 0

-- `"\n".join`.
unfoldable pub join_lines : List Text → Text
join_lines [] = []
join_lines (t ∷ []) = t
join_lines (t ∷ u ∷ ts) = t ++ (10 ∷ join_lines (u ∷ ts))

-- A run of three or more back quotes or tildes, with its length.
unfoldable pub marker_of : Text → Option (ℕ × ℕ)
unfolding run_length
marker_of [] = none
marker_of (c ∷ s) =
    if (nat_beq c 96 || nat_beq c 126) && leb 3 (run_length c (c ∷ s))
    then some (c, run_length c (c ∷ s))
    else none

-- `_FENCE_PATTERN.match`.
unfoldable pub fence_match : Text → Option (ℕ × ℕ)
unfolding marker_of count_blanks
fence_match line = marker_of (drop (count_blanks line) line)

-- `[ \t]*$` from the right.
unfoldable pub without_trailing_blanks : Text → Text
without_trailing_blanks [] = []
without_trailing_blanks (c ∷ s) =
    let rest = without_trailing_blanks s in
    if non_empty rest then c ∷ rest else if is_blank c then [] else c ∷ []

-- The second group of `_HEADING_PATTERN` on what follows the number signs: the first group of
-- blanks leaves it one character at least.
unfoldable pub heading_text : Text → Option Text
unfolding count_blanks without_trailing_blanks
heading_text s =
    if nat_beq (count_blanks s) 0
    then none
    else if non_empty (drop (count_blanks s) s)
    then some (without_trailing_blanks (drop (count_blanks s) s))
    else if ltb 1 (count_blanks s)
    then some (drop (length s - 1) s)
    else none

abbrev pub with_level : ℕ → Option Text → Option (ℕ × Text)
with_level level none = none
with_level level (some t) = some (level, t)

-- `_HEADING_PATTERN.match`: the number of the signs, and the second group.
unfoldable pub heading_match : Text → Option (ℕ × Text)
unfolding run_length heading_text
heading_match line =
    let level = run_length 35 line in
    if leb 1 level && leb level 6 then with_level level (heading_text (drop level line)) else none

-- `[ \t]+#+[ \t]*$` at the beginning.
unfoldable pub is_closing : Text → Bool
unfolding count_blanks run_length
is_closing s =
    let signs = drop (count_blanks s) s in
    let behind = drop (run_length 35 signs) signs in
    ltb 0 (count_blanks s)
    && ltb 0 (run_length 35 signs)
    && nat_beq (length behind) (count_blanks behind)

-- `re.sub` of it by nothing.
unfoldable pub without_closing : Text → Text
unfolding is_closing
without_closing [] = []
without_closing (c ∷ s) =
    let rest = without_closing s in if is_closing (c ∷ s) then [] else c ∷ rest

unfoldable pub heading_title : Text → Text
unfolding without_closing
heading_title group = strip (without_closing group)

-- The headings above, the innermost first, each with its level.
abbrev pub Headings : Type 0
Headings = List (ℕ × Text)

-- `while headings and headings[-1][0] >= level: headings.pop()`.
unfoldable pub outer_headings : ℕ → Headings → Headings
outer_headings level [] = []
outer_headings level ((l, t) ∷ hs) =
    let rest = outer_headings level hs in if leb level l then rest else (l, t) ∷ hs

abbrev pub Section : Type 0
Section = List Text × Text

pub record Sectioning : Type 0 where
  pub sections : List Section
  pub headings : Headings
  pub current_path : List Text
  pub current_lines : List Text
  pub fence : Option (ℕ × ℕ)

-- `flush`.
unfoldable pub flushed : Sectioning → List Section
unfolding join_lines
flushed st =
    let content = strip (join_lines st.current_lines) in
    if non_empty content then st.sections ++ ((st.current_path, content) ∷ []) else st.sections

abbrev pub with_line : Text → Sectioning → Sectioning
with_line line st = record st { current_lines = st.current_lines ++ (line ∷ []) }

-- Whether the fence of a line closes the one that is open.
abbrev pub closes : ℕ × ℕ → Option (ℕ × ℕ) → Bool
closes (c, n) none = false
closes (c, n) (some (d, m)) = nat_beq d c && leb n m

unfoldable pub begin_section : ℕ → Text → Text → Sectioning → Sectioning
unfolding outer_headings
begin_section level title line st =
    let headings = (level, title) ∷ outer_headings level st.headings in
    record {
      sections = flushed st;
      headings = headings;
      current_path = reverse (map (λ h. h.1) headings);
      current_lines = line ∷ [];
      fence = none;
    }

abbrev pub outside_fence : Text → Sectioning → Option (ℕ × ℕ) → Option (ℕ × Text) → Sectioning
outside_fence line st (some mark) heading = record (with_line line st) { fence = some mark }
outside_fence line st none none = with_line line st
outside_fence line st none (some (level, group)) = begin_section level (heading_title group) line st

abbrev pub at_line : Text → Sectioning → Option (ℕ × ℕ) → Sectioning
at_line line st none = outside_fence line st (fence_match line) (heading_match line)
at_line line st (some mark) = record (with_line line st) {
  fence = if closes mark (fence_match line) then none else some mark;
}

-- The body of the loop over the lines.
unfoldable pub section_step : Text → Sectioning → Sectioning
unfolding begin_section heading_title fence_match heading_match
section_step line st = at_line line st st.fence

unfoldable pub section_lines : List Text → Sectioning → Sectioning
unfolding section_step
section_lines [] st = st
section_lines (line ∷ lines) st = section_lines lines (section_step line st)

abbrev pub at_start : Text → Sectioning
at_start title = record {
  sections = [];
  headings = [];
  current_path = title ∷ [];
  current_lines = [];
  fence = none;
}

unfoldable pub markdown_sections : Text → Text → List Section
unfolding section_lines splitlines flushed
markdown_sections title content =
    flushed (section_lines (splitlines false content) (at_start title))
