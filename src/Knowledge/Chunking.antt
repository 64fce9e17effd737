-- ===== src/Knowledge/Chunking.antt =====
-- The chunks of a document (agent-service/app/knowledge/chunking.py, `HeadingDocumentChunker`).
use productline_agent.Base.{
  ℕ, suc, ◌-◌, ◌≡◌, ◌↔◌, Bool, true, false, ◌&&◌, ◌||◌, Option, none, some, List, [], ◌∷◌, ◌++◌,
  Text, codes, text_eq, pair_eq, Eq, ◌==◌, leb, ltb, nat_beq, if◌then◌else◌, take, arith, map,
  is_space,
}
use productline_agent.Base.Dict
use productline_agent.Base.Dict.{Dict}
use productline_agent.Base.Pattern.{is_upper, is_lower, is_digit}
use productline_agent.Knowledge.Paragraphs.{split_oversized_text, when_both}
use productline_agent.Knowledge.Sections.{Section, markdown_sections}

pub data DocumentFormat : Type 0 where
  markdown plain_text : DocumentFormat

pub record ChunkSource : Type 0 where
  pub document_id : Text
  pub title : Text
  pub document_format : DocumentFormat
  pub content : Text

pub record DocumentChunk : Type 0 where
  pub chunk_id : Text
  pub document_id : Text
  pub chunk_index : ℕ
  pub section_path : List Text
  pub content : Text
  pub content_hash : Text
  pub token_count : ℕ

-- Tuples of texts are compared by their items.
abbrev pub path_beq : List Text → List Text → Bool
path_beq [] [] = true
path_beq [] (t ∷ q) = false
path_beq (s ∷ p) [] = false
path_beq (s ∷ p) (t ∷ q) = (s == t) && path_beq p q

pub path_beq_iff : (p q : List Text) → (path_beq p q ≡ true) ↔ (p ≡ q)
path_beq_iff [] [] = ground arith
path_beq_iff [] (t ∷ q) = ground arith
path_beq_iff (s ∷ p) [] = ground arith
path_beq_iff (s ∷ p) (t ∷ q) = ground (arith, text_eq.same_iff s t, path_beq_iff p q)

instance abbrev pub path_eq : Eq (List Text)
path_eq = record { same = path_beq; same_iff = path_beq_iff }

abbrev is_ideograph : ℕ → Bool
is_ideograph c = (leb 0x3400 c && leb c 0x4dbf) || (leb 0x4e00 c && leb c 0x9fff)

abbrev is_alphanumeric : ℕ → Bool
is_alphanumeric c = is_upper c || is_lower c || is_digit c

abbrev is_joint : ℕ → Bool
is_joint c = nat_beq c b'.' || nat_beq c b'_' || nat_beq c b'/' || nat_beq c b'-'

abbrev begins_word : Text → Bool
begins_word [] = false
begins_word (c ∷ s) = is_alphanumeric c

-- `_count_lexical_tokens`; the flag says that a word is under way.
unfoldable pub count_tokens : Bool → Text → ℕ
count_tokens inside [] = 0
count_tokens inside (c ∷ s) =
    let goes_on = inside && (is_alphanumeric c || (is_joint c && begins_word s)) in
    let rest = count_tokens (goes_on || is_alphanumeric c) s in
    if goes_on || is_space c then rest else suc rest

-- `str.upper` on hexadecimal digits.
abbrev pub upper_digit : ℕ → ℕ
upper_digit c = if is_lower c then c - 32 else c

-- `sha256(...).hexdigest()`, the JSON text of what identifies a chunk, and the counter of tokens.
pub record ChunkSetup : Type 0 where
  pub sha256 : Text → Text
  pub payload : Text → List Text → Text → ℕ → Text
  pub token_counter : Text → ℕ

-- The pieces of all sections.
unfoldable pub fragments_of : ℕ → List Section → Option (List Section)
fragments_of most [] = some []
fragments_of most ((path, content) ∷ ss) =
    when_both (λ pieces rest. map (λ (t : Text). (path, t)) pieces ++ rest)
      (split_oversized_text most content) (fragments_of most ss)

abbrev pub sections_of : ChunkSource → DocumentFormat → List Section
sections_of d markdown = markdown_sections d.title d.content
sections_of d plain_text = (d.title ∷ [], d.content) ∷ []

abbrev pub count_or_zero : Option ℕ → ℕ
count_or_zero none = 0
count_or_zero (some n) = n

abbrev pub Signature : Type 0
Signature = List Text × Text

abbrev pub occurrences : Signature → Dict Signature ℕ → ℕ
occurrences key counts = count_or_zero (Dict.lookup key counts)

module _ (setup : ChunkSetup) where
  open setup use {sha256, payload, token_counter}

  -- `_stable_chunk_id`.
  unfoldable pub stable_chunk_id : Text → List Text → Text → ℕ → Text
  stable_chunk_id document path hash occurrence =
      codes "KCH-" ++ map upper_digit (take 40 (sha256 (payload document path hash occurrence)))

  -- The loop over the fragments.
  unfoldable pub number_fragments : Text → ℕ → Dict Signature ℕ → List Section → List DocumentChunk
  unfolding stable_chunk_id
  number_fragments document index counts [] = []
  number_fragments document index counts ((path, content) ∷ fs) =
      let hash = sha256 content in
      let occurrence = occurrences (path, hash) counts in
      record {
        chunk_id = stable_chunk_id document path hash occurrence;
        document_id = document;
        chunk_index = index;
        section_path = path;
        content = content;
        content_hash = hash;
        token_count = if ltb 0 (token_counter content) then token_counter content else 1;
      }
      ∷ number_fragments document (suc index) (Dict.insert (path, hash) (suc occurrence) counts) fs

  abbrev pub numbered : Text → Option (List Section) → Option (List DocumentChunk)
  numbered document none = none
  numbered document (some fs) = some (number_fragments document 0 [] fs)

  -- `HeadingDocumentChunker.split`, for a limit that the constructor admits.
  unfoldable pub split : ℕ → ChunkSource → Option (List DocumentChunk)
  unfolding number_fragments fragments_of
  split most d = numbered d.document_id (fragments_of most (sections_of d d.document_format))
