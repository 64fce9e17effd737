-- ===== src/Knowledge/Identities.antt =====
-- On the identities of the chunks of a document (agent-service/app/knowledge/chunking.py).
use productline_agent.Base.{
  ℕ, suc, ◌+◌, ◌≤◌, ◌<◌, ◌≡◌, ◌≢◌, ◌⊎◌, refl, ap, List, [], ◌∷◌, Text, text_eq, pair_eq, inl, inr,
  arith, All, Member, length,
}
use productline_agent.Base.Dict
use productline_agent.Base.Dict.{Dict, lookup-insert_cases, lookup-insert_self}
use productline_agent.Knowledge.Sections.{Section}
use productline_agent.Knowledge.Chunking.{
  path_eq, Signature, occurrences, count_or_zero, ChunkSetup, DocumentChunk, stable_chunk_id,
  number_fragments,
}

-- No two elements are the same.
abbrev pub AreDistinct : List Text → Type 0
AreDistinct [] = Unit
AreDistinct (x ∷ xs) = All (λ y. x ≢ y) xs × AreDistinct xs

abbrev pub chunk_ids : List DocumentChunk → List Text
chunk_ids [] = []
chunk_ids (c ∷ cs) = c.chunk_id ∷ chunk_ids cs

occurrences_cases :
    (k j : Signature) (n : ℕ) (counts : Dict Signature ℕ)
    → ((k ≡ j) × (occurrences j (Dict.insert k n counts) ≡ n))
      ⊎ (occurrences j (Dict.insert k n counts) ≡ occurrences j counts)
occurrences_cases k j n counts = elim (lookup-insert_cases k j n counts) [
  | inl (same, e) ↦ inl (same, ap count_or_zero e)
  | inr e ↦ inr (ap count_or_zero e)
]

-- Counting one more of a signature counts no other one down.
counted_more :
    (k j : Signature) (m : ℕ) (counts : Dict Signature ℕ)
    → m < occurrences j counts
    → m < occurrences j (Dict.insert k (suc (occurrences k counts)) counts)
counted_more k j m counts less = elim (occurrences_cases k j (suc (occurrences k counts)) counts) [
  | inl (same, e) ↦ omega (arith, less, e, ap (λ (x : Signature). occurrences x counts) same)
  | inr e ↦ omega (arith, less, e)
]

counted :
    (k : Signature) (counts : Dict Signature ℕ)
    → occurrences k counts < occurrences k (Dict.insert k (suc (occurrences k counts)) counts)
counted k counts =
    omega (arith, ap count_or_zero (lookup-insert_self k (suc (occurrences k counts)) counts))

-- No signature is counted more often than there were fragments.
AreBelow : Dict Signature ℕ → ℕ → Type 0
AreBelow counts index = (j : Signature) → occurrences j counts ≤ index

AreBelow-insert :
    (k : Signature) (counts : Dict Signature ℕ) (index : ℕ)
    → AreBelow counts index
    → AreBelow (Dict.insert k (suc (occurrences k counts)) counts) (suc index)
unfolding AreBelow
AreBelow-insert k counts index below j =
    elim (occurrences_cases k j (suc (occurrences k counts)) counts) [
      | inl (same, e) ↦ omega (arith, e, below k)
      | inr e ↦ omega (arith, e, below j)
    ]

module _ (setup : ChunkSetup) (document : Text) where
  open setup use {sha256}

  abbrev pub signatures : List Section → List Signature
  signatures [] = []
  signatures ((path, content) ∷ fs) = (path, sha256 content) ∷ signatures fs

  -- The digests of the fragments of a document do not collide: equal identities come from the same
  -- path, the same hash of the content and the same count of occurrences.
  abbrev pub IdentifiesChunks : List Section → Type 0
  IdentifiesChunks all =
      (a b : Signature) (m n : ℕ)
      → Member a (signatures all)
      → Member b (signatures all)
      → m < length all
      → n < length all
      → stable_chunk_id setup document a.0 a.1 m ≡ stable_chunk_id setup document b.0 b.1 n
      → (a ≡ b) × (m ≡ n)

  module _ (all : List Section) (identifies : IdentifiesChunks all) where
    abbrev Among : List Section → Type 0
    Among fs = (a : Signature) → Member a (signatures fs) → Member a (signatures all)

    -- A chunk with fewer occurrences before it than counted does not come any more.
    earlier_ne :
        (a : Signature) (m index : ℕ) (counts : Dict Signature ℕ) (fs : List Section)
        → Member a (signatures all)
        → m < occurrences a counts
        → AreBelow counts index
        → index + length fs ≤ length all
        → Among fs
        → All
            (λ id. stable_chunk_id setup document a.0 a.1 m ≢ id)
            (chunk_ids (number_fragments setup document index counts fs))
    unfolding number_fragments AreBelow
    earlier_ne a m index counts [] member less below bound among = tt
    earlier_ne a m index counts ((path, content) ∷ fs) member less below bound among = (
      λ e.
          let (same, same_count) =
            identifies a (path, sha256 content) m (occurrences (path, sha256 content) counts) member
              (among (path, sha256 content) (inl refl)) (omega (arith, below a))
              (omega (arith, below (path, sha256 content))) e in
          omega (arith, less, same_count, ap (λ (x : Signature). occurrences x counts) same),
      earlier_ne a m (suc index) _ fs member (counted_more (path, sha256 content) a m counts less)
          (AreBelow-insert (path, sha256 content) counts index below) (omega arith)
          (λ b h. among b (inr h)),
    )

    number_fragments-AreDistinct :
        (index : ℕ) (counts : Dict Signature ℕ) (fs : List Section)
        → AreBelow counts index
        → index + length fs ≤ length all
        → Among fs
        → AreDistinct (chunk_ids (number_fragments setup document index counts fs))
    unfolding number_fragments
    number_fragments-AreDistinct index counts [] below bound among = tt
    number_fragments-AreDistinct index counts ((path, content) ∷ fs) below bound among = (
      earlier_ne (path, sha256 content) (occurrences (path, sha256 content) counts) (suc index) _ fs
          (among (path, sha256 content) (inl refl)) (counted (path, sha256 content) counts)
          (AreBelow-insert (path, sha256 content) counts index below) (omega arith)
          (λ b h. among b (inr h)),
      number_fragments-AreDistinct (suc index) _ fs
          (AreBelow-insert (path, sha256 content) counts index below) (omega arith)
          (λ b h. among b (inr h)),
    )

    pub chunk_ids-AreDistinct : AreDistinct (chunk_ids (number_fragments setup document 0 [] all))
    unfolding AreBelow Dict.lookup
    chunk_ids-AreDistinct =
        number_fragments-AreDistinct 0 [] all (λ j. omega arith) (omega arith) (λ a h. h)
