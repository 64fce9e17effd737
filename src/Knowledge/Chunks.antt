-- ===== src/Knowledge/Chunks.antt =====
-- On the chunks of a whole document (agent-service/app/knowledge/chunking.py).
use productline_agent.Base.{
  Returns, false, ℕ, suc, ◌≤◌, ◌<◌, ◌≡◌, inl, refl, ap, Option, none, some, List, [], ◌∷◌, ◌++◌,
  Text, arith, All, map,
}
use mathlib.Core.List.{append-nil}
use productline_agent.Base.Dict.{Dict}
use productline_agent.Knowledge.Visible.{visible, joined}
use productline_agent.Knowledge.Cuts.{
  Returns-when_both, All-append, AreCuts, AreCuts-append, AreCuts-same,
}
use productline_agent.Knowledge.Gaps.{split_oversized_text-AreCuts}
use productline_agent.Knowledge.Sections.{Section, markdown_sections, splitlines}
use productline_agent.Knowledge.Headings.{contents, contents-append, markdown_sections-visible}
use productline_agent.Knowledge.Outline.{IsPath, IsSection, markdown_sections-All}
use productline_agent.Knowledge.Chunking.{
  ChunkSetup, ChunkSource, DocumentChunk, DocumentFormat, markdown, plain_text, Signature,
  fragments_of, sections_of, number_fragments, numbered, split,
}
use productline_agent.Knowledge.Identities.{
  AreDistinct, IdentifiesChunks, chunk_ids, chunk_ids-AreDistinct,
}

abbrev pub texts_of : List DocumentChunk → List Text
texts_of [] = []
texts_of (c ∷ cs) = c.content ∷ texts_of cs

-- The pieces of a document: their contents, and a path for each.
record AreFragments (most : ℕ) (title : Text) (lines : List Text) (s : Text) (fs : List Section)
    : Type 0 where
  cuts : AreCuts most s (contents fs)
  paths : All (λ f. IsPath title lines f.0) fs

contents_of_pieces :
    (path : List Text) (ts : List Text) → contents (map (λ (t : Text). (path, t)) ts) ≡ ts
contents_of_pieces path [] = refl
contents_of_pieces path (t ∷ ts) = ap (λ (l : List Text). t ∷ l) (contents_of_pieces path ts)

paths_of_pieces :
    (title : Text) (lines : List Text) (path : List Text) (ts : List Text)
    → IsPath title lines path
    → All (λ (f : Section). IsPath title lines f.0) (map (λ (t : Text). (path, t)) ts)
paths_of_pieces title lines path [] p = tt
paths_of_pieces title lines path (t ∷ ts) p = (p, paths_of_pieces title lines path ts p)

module _ (most : ℕ) (pos : 0 < most) (title : Text) (lines : List Text) where
  AreFragments-append :
      (path : List Text) (s t : Text) (pieces : List Text) (fs : List Section)
      → IsPath title lines path
      → AreCuts most s pieces
      → AreFragments most title lines t fs
      → AreFragments most title lines (s ++ t) (map (λ (t : Text). (path, t)) pieces ++ fs)
  AreFragments-append path s t pieces fs p cuts later = record {
    cuts = rw (contents-append (map (λ (x : Text). (path, x)) pieces) fs) (
        rw (contents_of_pieces path pieces)
          (AreCuts-append most s t pieces (contents fs) cuts later.cuts));
    paths = All-append _ _ fs (paths_of_pieces title lines path pieces p) later.paths;
  }

  fragments_of-AreFragments :
      (ss : List Section)
      → All (λ (s : Section). IsPath title lines s.0) ss
      → Returns (fragments_of most ss) (AreFragments most title lines (joined (contents ss)))
  unfolding fragments_of
  fragments_of-AreFragments [] all = record {
    cuts = record { sized = tt; kept = refl };
    paths = tt;
  }
  fragments_of-AreFragments ((path, content) ∷ ss) all =
      Returns-when_both (AreCuts most content)
        (AreFragments most title lines (joined (contents ss))) _ _ _ _
        (split_oversized_text-AreCuts most pos content) (fragments_of-AreFragments ss all.1)
        (λ pieces fs cuts later.
          AreFragments-append path content (joined (contents ss)) pieces fs all.0 cuts later)

paths_of_sections :
    (title : Text) (lines : List Text) (ss : List Section)
    → All (IsSection title lines) ss
    → All (λ (s : Section). IsPath title lines s.0) ss
paths_of_sections title lines [] all = tt
paths_of_sections title lines (s ∷ ss) all = (all.0.0, paths_of_sections title lines ss all.1)

sections_of_paths :
    (d : ChunkSource) (format : DocumentFormat)
    → All (λ (s : Section). IsPath d.title (splitlines false d.content) s.0) (sections_of d format)
sections_of_paths d markdown =
    paths_of_sections d.title (splitlines false d.content) (markdown_sections d.title d.content)
      (markdown_sections-All d.title d.content)
sections_of_paths d plain_text = (
  record { headings = []; nested = tt; read = tt; titles = inl (refl, refl); filled = omega arith },
  tt,
)

sections_of-visible :
    (d : ChunkSource) (format : DocumentFormat)
    → visible (joined (contents (sections_of d format))) ≡ visible d.content
sections_of-visible d markdown = markdown_sections-visible d.title d.content
sections_of-visible d plain_text = ap visible (append-nil d.content)

module _ (setup : ChunkSetup) (document : Text) where
  open setup use {sha256}

  -- In the order of the document, and with what is stored beside the content.
  abbrev pub AreNumbered : ℕ → List DocumentChunk → Type 0
  AreNumbered index [] = Unit
  AreNumbered index (c ∷ cs) =
      (c.chunk_index ≡ index)
      × (c.document_id ≡ document)
      × (c.content_hash ≡ sha256 c.content)
      × (1 ≤ c.token_count)
      × AreNumbered (suc index) cs

  number_fragments-AreNumbered :
      (index : ℕ) (counts : Dict Signature ℕ) (fs : List Section)
      → AreNumbered index (number_fragments setup document index counts fs)
  unfolding number_fragments
  number_fragments-AreNumbered index counts [] = tt
  number_fragments-AreNumbered index counts ((path, content) ∷ fs) =
      (refl, refl, refl, ground arith, number_fragments-AreNumbered (suc index) _ fs)

  texts_of-number_fragments :
      (index : ℕ) (counts : Dict Signature ℕ) (fs : List Section)
      → texts_of (number_fragments setup document index counts fs) ≡ contents fs
  unfolding number_fragments
  texts_of-number_fragments index counts [] = refl
  texts_of-number_fragments index counts ((path, content) ∷ fs) =
      ap (λ (l : List Text). content ∷ l) (texts_of-number_fragments (suc index) _ fs)

  number_fragments_paths :
      (title : Text) (lines : List Text) (index : ℕ) (counts : Dict Signature ℕ) (fs : List Section)
      → All (λ (f : Section). IsPath title lines f.0) fs
      → All
          (λ (c : DocumentChunk). IsPath title lines c.section_path)
          (number_fragments setup document index counts fs)
  unfolding number_fragments
  number_fragments_paths title lines index counts [] all = tt
  number_fragments_paths title lines index counts ((path, content) ∷ fs) all =
      (all.0, number_fragments_paths title lines (suc index) _ fs all.1)

pub record AreChunks (setup : ChunkSetup) (most : ℕ) (d : ChunkSource) (chunks : List DocumentChunk)
    : Type 0 where
  pub cuts : AreCuts most d.content (texts_of chunks)
  pub paths :
      All (λ (c : DocumentChunk). IsPath d.title (splitlines false d.content) c.section_path) chunks
  pub order : AreNumbered setup d.document_id 0 chunks

Returns-numbered :
    (setup : ChunkSetup) (document : Text) (P : List Section → Type 0)
    (Q : List DocumentChunk → Type 0) (o : Option (List Section))
    → Returns o P
    → ((fs : List Section) → P fs → Q (number_fragments setup document 0 [] fs))
    → Returns (numbered setup document o) Q
Returns-numbered setup document P Q none h k = h
Returns-numbered setup document P Q (some fs) h k = k fs h

module _ (setup : ChunkSetup) (most : ℕ) (d : ChunkSource) (pos : 0 < most) where
  fragments_of_sections : Returns (fragments_of most (sections_of d d.document_format)) (
      AreFragments most d.title
        (splitlines false d.content)
        (joined (contents (sections_of d d.document_format))))
  fragments_of_sections =
      fragments_of-AreFragments most pos d.title (splitlines false d.content)
        (sections_of d d.document_format) (sections_of_paths d d.document_format)

  -- For every positive limit, the chunker returns on every document, and its chunks are numbered
  -- from 0 in the order of the document, carry the id of the document, the hash of their content
  -- and a token count of at least 1, hold between one character and the limit, have together the
  -- visible characters of the document in their order, and each stands under a path that is not
  -- empty: the title of the document, or the titles of headings among the lines of the document,
  -- each with its level from 1 to 6, the levels growing from the outermost in.
  pub split-AreChunks : Returns (split setup most d) (AreChunks setup most d)
  unfolding split
  split-AreChunks =
      Returns-numbered setup d.document_id
        (AreFragments most d.title (splitlines false d.content)
          (joined (contents (sections_of d d.document_format))))
        (AreChunks setup most d) (fragments_of most (sections_of d d.document_format))
        fragments_of_sections
        (λ fs h. record {
          cuts = rw (texts_of-number_fragments setup d.document_id 0 [] fs) (
              AreCuts-same most _ d.content (contents fs) (sections_of-visible d d.document_format)
                h.cuts);
          paths =
              number_fragments_paths setup d.document_id d.title (splitlines false d.content) 0 []
                fs h.paths;
          order = number_fragments-AreNumbered setup d.document_id 0 [] fs;
        })

  -- If the pieces of a document are `fs`, and the digests of a path, a hash and a count of
  -- occurrences that come from these pieces do not collide, then the chunker returns chunks with
  -- pairwise different ids, also where a section occurs more than once.
  pub split-AreDistinct :
      (fs : List Section)
      → fragments_of most (sections_of d d.document_format) ≡ some fs
      → IdentifiesChunks setup d.document_id fs
      → (chunks : List DocumentChunk) × (split setup most d ≡ some chunks)
        × AreDistinct (chunk_ids chunks)
  unfolding split
  split-AreDistinct fs e identifies = (
    number_fragments setup d.document_id 0 [] fs,
    ap (numbered setup d.document_id) e,
    chunk_ids-AreDistinct setup d.document_id fs identifies,
  )
