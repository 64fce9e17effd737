-- ===== src/Knowledge/Tests.antt =====
-- The chunking of small documents.
use productline_agent.Base.{
  Returns, ℕ, zero, suc, ◌<◌, ◌≡◌, inl, inr, refl, sym, ap, ◌∙◌, false, some, List, [], ◌∷◌, ◌++◌,
  codes, lstrip, rstrip, strip, is_space, arith, Member,
}
use productline_agent.Knowledge.Paragraphs.{split_oversized_text, split_long_paragraph, gap}
use productline_agent.Knowledge.Sections.{markdown_sections, begin_section, Section}
use productline_agent.Knowledge.Cuts.{AreCuts, split_long_paragraph-AreCuts}
use productline_agent.Knowledge.Chunking.{
  ChunkSetup, ChunkSource, DocumentChunk, markdown, count_tokens, split, fragments_of, sections_of,
  Signature, stable_chunk_id,
}
use productline_agent.Knowledge.Identities.{IdentifiesChunks, AreDistinct, chunk_ids}
use productline_agent.Knowledge.Chunks.{AreChunks, split-AreChunks, split-AreDistinct}
use productline_agent.Knowledge.Visible.{visible, joined}
use productline_agent.Knowledge.Cuts.{split_long_paragraph-AreCuts}
use productline_agent.Knowledge.Gaps.{split_oversized_text-AreCuts}
use productline_agent.Knowledge.Headings.{contents, markdown_sections-visible}

tokens : count_tokens false (codes "a.b c/ (d)") ≡ 6
unfolding count_tokens is_space
tokens = refl

abbrev document : ChunkSource
document = record {
  document_id = codes "KDOC-1";
  title = codes "Guide";
  document_format = markdown;
  content =
      codes "intro"
      ++ (10 ∷ codes "## A ##"
          ++ (10 ∷ codes "x" ++ (10 ∷ codes "# B" ++ (10 ∷ codes "## A" ++ (10 ∷ codes "y")))));
}

document-sections :
    markdown_sections document.title document.content
    ≡ (codes "Guide" ∷ [], codes "intro")
      ∷ (codes "A" ∷ [], codes "## A ##" ++ (10 ∷ codes "x"))
      ∷ (codes "B" ∷ [], codes "# B")
      ∷ (codes "B" ∷ codes "A" ∷ [], codes "## A" ++ (10 ∷ codes "y"))
      ∷ []
unfolding markdown_sections begin_section strip lstrip rstrip is_space
document-sections = refl

-- A sentence longer than the limit is cut behind its full stop.
cut : split_oversized_text 8 (codes "abcde. fghij") ≡ some (codes "abcde." ∷ codes "fghij" ∷ [])
unfolding split_oversized_text split_long_paragraph gap strip lstrip rstrip is_space
cut = refl

-- The digest of a payload is the payload.
abbrev setup : ChunkSetup
setup = record {
  sha256 = λ t. t;
  payload = λ document path hash occurrence. occurrence ∷ hash;
  token_counter = λ t. 0;
}

-- One section twice.
abbrev twice : ChunkSource
twice = record {
  document_id = codes "KDOC-1";
  title = codes "Guide";
  document_format = markdown;
  content = codes "# A" ++ (10 ∷ codes "# A");
}

abbrev fragment : Section
fragment = (codes "A" ∷ [], codes "# A")

twice_fragments :
    fragments_of 32 (sections_of twice twice.document_format) ≡ some (fragment ∷ fragment ∷ [])
unfolding fragments_of split_oversized_text split_long_paragraph gap markdown_sections begin_section
    strip lstrip rstrip is_space
twice_fragments = refl

split-AreChunks_example : Returns (split setup 32 twice) (AreChunks setup 32 twice)
split-AreChunks_example = split-AreChunks setup 32 twice (omega arith)

is_fragment : (a : Signature) → Member a (fragment ∷ fragment ∷ []) → fragment ≡ a
is_fragment a (inl e) = e
is_fragment a (inr (inl e)) = e
is_fragment a (inr (inr h)) = absurd h

below_two :
    (m n : ℕ)
    → m < 2
    → n < 2
    → stable_chunk_id setup twice.document_id (codes "A" ∷ []) (codes "# A") m
      ≡ stable_chunk_id setup twice.document_id (codes "A" ∷ []) (codes "# A") n
    → m ≡ n
unfolding stable_chunk_id
below_two zero zero hm hn e = refl
below_two zero (suc zero) hm hn e = cc
below_two (suc zero) zero hm hn e = cc
below_two (suc zero) (suc zero) hm hn e = refl
below_two zero (suc (suc n)) hm hn e = omega arith
below_two (suc zero) (suc (suc n)) hm hn e = omega arith
below_two (suc (suc m)) n hm hn e = omega arith

twice_identified : IdentifiesChunks setup twice.document_id (fragment ∷ fragment ∷ [])
twice_identified a b m n ha hb hm hn e = (
  sym (is_fragment a ha) ∙ is_fragment b hb,
  below_two m n hm hn (
      ap (λ (x : Signature). stable_chunk_id setup twice.document_id x.0 x.1 m) (is_fragment a ha)
      ∙ e
      ∙ sym (
          ap (λ (x : Signature). stable_chunk_id setup twice.document_id x.0 x.1 n)
            (is_fragment b hb))),
)

split-AreDistinct_example :
    (chunks : List DocumentChunk) × (split setup 32 twice ≡ some chunks)
    × AreDistinct (chunk_ids chunks)
split-AreDistinct_example =
    split-AreDistinct setup 32 twice (omega arith) (fragment ∷ fragment ∷ []) twice_fragments
      twice_identified

split_oversized_text-AreCuts_example :
    Returns (split_oversized_text 8 (codes "abcde. fghij")) (AreCuts 8 (codes "abcde. fghij"))
split_oversized_text-AreCuts_example =
    split_oversized_text-AreCuts 8 (omega arith) (codes "abcde. fghij")

split_long_paragraph-AreCuts_example :
    Returns (split_long_paragraph 8 (codes "abcde. fghij")) (AreCuts 8 (codes "abcde. fghij"))
split_long_paragraph-AreCuts_example =
    split_long_paragraph-AreCuts 8 (codes "abcde. fghij") (omega arith)

markdown_sections-visible_example :
    visible (joined (contents (markdown_sections document.title document.content)))
    ≡ visible document.content
markdown_sections-visible_example = markdown_sections-visible document.title document.content
