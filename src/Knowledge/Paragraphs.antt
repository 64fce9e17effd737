-- ===== src/Knowledge/Paragraphs.antt =====
-- The cutting of a section into pieces of bounded length (agent-service/app/knowledge/chunking.py,
-- `_split_oversized_text` and `_split_long_paragraph`).
use productline_agent.Base.{
  ℕ, zero, suc, ◌+◌, ◌/◌, Bool, ◌&&◌, ◌||◌, Option, none, some, List, [], ◌∷◌, ◌++◌, Text, lstrip,
  strip, length, take, drop, non_empty, ltb, leb, nat_beq, if◌then◌else◌,
}

-- `[ \t]`.
abbrev pub is_blank : ℕ → Bool
is_blank c = nat_beq c 32 || nat_beq c 9

-- How many characters `[ \t]*` and `\n*` take.
unfoldable pub count_blanks : Text → ℕ
count_blanks [] = 0
count_blanks (c ∷ s) = let rest = count_blanks s in if is_blank c then suc rest else 0

unfoldable pub count_newlines : Text → ℕ
count_newlines [] = 0
count_newlines (c ∷ s) = let rest = count_newlines s in if nat_beq c 10 then suc rest else 0

-- How many characters the match of `\n[ \t]*\n+` at the beginning takes behind its first one; 0 if
-- there is no match.
unfoldable pub gap : Text → ℕ
unfolding count_blanks count_newlines
gap [] = 0
gap (c ∷ s) =
    let blanks = count_blanks s in
    let newlines = count_newlines (drop blanks s) in
    if nat_beq c 10 && ltb 0 newlines then blanks + newlines else 0

abbrev pub onto_first : ℕ → List Text → List Text
onto_first c [] = (c ∷ []) ∷ []
onto_first c (t ∷ ts) = (c ∷ t) ∷ ts

-- `re.split`: the first number counts the characters of a match that are still to be skipped.
unfoldable pub split_gaps : ℕ → Text → List Text
split_gaps skip [] = [] ∷ []
split_gaps (suc n) (c ∷ s) = split_gaps n s
split_gaps zero (c ∷ s) =
    let rest = split_gaps (gap (c ∷ s)) s in
    if ltb 0 (gap (c ∷ s)) then [] ∷ rest else onto_first c rest

-- `part.strip() for part in parts if part.strip()`.
unfoldable pub stripped_parts : List Text → List Text
stripped_parts [] = []
stripped_parts (t ∷ ts) =
    let rest = stripped_parts ts in if non_empty (strip t) then strip t ∷ rest else rest

-- `_SPLIT_PUNCTUATION`.
unfoldable pub is_split_punctuation : ℕ → Bool
is_split_punctuation c =
    nat_beq c 0x3002
    || nat_beq c 0xff01
    || nat_beq c 0xff1f
    || nat_beq c 0xff1b
    || nat_beq c b'.'
    || nat_beq c b'!'
    || nat_beq c b'?'
    || nat_beq c b';'
    || nat_beq c 10

abbrev pub or_else : Option ℕ → Option ℕ → Option ℕ
or_else none b = b
or_else (some a) b = some a

-- The last boundary of a window whose first character ends at `at`.
unfoldable pub last_boundary : ℕ → ℕ → Text → Option ℕ
unfolding is_split_punctuation
last_boundary least at [] = none
last_boundary least at (c ∷ s) =
    or_else (last_boundary least (suc at) s)
      (if leb least at && is_split_punctuation c then some at else none)

abbrev pub or_default : ℕ → Option ℕ → ℕ
or_default d none = d
or_default d (some n) = n

-- Where a text that is too long is cut.
unfoldable pub boundary : ℕ → Text → ℕ
unfolding last_boundary
boundary most s = or_default most (last_boundary (most / 2) 1 (take most s))

abbrev pub add_part : Text → List Text → List Text
add_part t ts = if non_empty t then t ∷ ts else ts

abbrev pub when_done : {A : Type 0} → (List Text → A) → Option (List Text) → Option A
when_done f none = none
when_done f (some ts) = some (f ts)

abbrev pub when_both : {A B C : Type 0} → (A → B → C) → Option A → Option B → Option C
when_both f none b = none
when_both f (some a) none = none
when_both f (some a) (some b) = some (f a b)

-- The loop; none when the fuel runs out.
unfoldable pub cut_long : ℕ → ℕ → Text → Option (List Text)
unfolding boundary
cut_long zero most remaining = none
cut_long (suc f) most remaining =
    let rest = cut_long f most (lstrip (drop (boundary most remaining) remaining)) in
    if ltb most (length remaining)
    then when_done (add_part (strip (take (boundary most remaining) remaining))) rest
    else some (add_part remaining [])

unfoldable pub split_long_paragraph : ℕ → Text → Option (List Text)
unfolding cut_long
split_long_paragraph most paragraph =
    cut_long (suc (length (strip paragraph))) most (strip paragraph)

-- `f"{current}\n\n{paragraph}" if current else paragraph`.
abbrev pub appended : Text → Text → Text
appended [] paragraph = paragraph
appended (c ∷ s) paragraph = (c ∷ s) ++ (10 ∷ 10 ∷ paragraph)

-- The loop over the paragraphs, from the piece that is being filled.
unfoldable pub combine : ℕ → Text → List Text → Option (List Text)
combine most current [] = some (add_part current [])
combine most current (p ∷ ps) =
    let together = combine most (appended current p) ps in
    let alone = combine most p ps in
    let after_cut = combine most [] ps in
    if leb (length (appended current p)) most
    then together
    else if leb (length p) most
    then when_done (add_part current) alone
    else when_both (λ cut later. add_part current (cut ++ later)) (split_long_paragraph most p)
        after_cut

unfoldable pub split_oversized_text : ℕ → Text → Option (List Text)
unfolding split_gaps stripped_parts combine
split_oversized_text most text = combine most [] (stripped_parts (split_gaps 0 text))
