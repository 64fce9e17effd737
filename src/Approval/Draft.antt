-- ===== src/Approval/Draft.antt =====
-- The review draft that a user confirms (agent-service/app/schemas/approval.py, with the `Citation`
-- of agent-service/app/schemas/knowledge.py). Pydantic's reading of a dict is a parameter, `Codec`;
-- the constraints that the schemas declare are the tests below.
use productline_agent.Base.{
  ℕ, ◌||◌, contains, nat_eq, codes, length, leb, ◌≡◌, Bool, true, false, not, ◌&&◌, Option, none,
  some, List, [], ◌∷◌, arith, if◌then◌else◌, Text, text_eq, ◌==◌, repeats, is_some, all_of, ◌++◌,
  pair_eq,
}
use productline_agent.Base.Pattern.{
  is_upper, is_lower, is_digit, is_groups, length_between, is_task_id, is_business_id, is_field,
}

pub data Conclusion : Type 0 where
  approved rejected rework_required : Conclusion

pub data ReworkType : Type 0 where
  coordinate_system_fix : ReworkType

-- Without its relevance score, a float that nothing here reads.
pub record Citation : Type 0 where
  pub document_id : Text
  pub document_name : Text
  pub document_version : Text
  pub section : List Text
  pub chunk_id : Text
  pub chunk_ids : List Text
  pub content : Text

-- `Citation.validate_primary_chunk`, on the chunk identities, of which there is at least one.
is_primary : Text → List Text → Bool
is_primary chunk_id [] = false
is_primary chunk_id (k ∷ ks) = (chunk_id == k) && not (repeats (k ∷ ks))

abbrev is_code_character : ℕ → Bool
is_code_character c = is_upper c || is_digit c

abbrev is_chunk_character : ℕ → Bool
is_chunk_character c = is_upper c || is_lower c || is_digit c || contains c (codes "._:-")

-- `DocumentIdentifier`, a document's version, and `CitationChunkIdentifier`.
is_document_id : Text → Bool
is_document_id s = length_between 5 128 s && is_groups is_code_character b'-' false s

is_version : Text → Bool
is_version s = length_between 1 64 s && is_groups is_digit b'.' false s

is_chunk_id : Text → Bool
is_chunk_id s = length_between 1 256 s && all_of is_chunk_character s

unfoldable pub is_citation : Citation → Bool
unfolding is_primary is_document_id is_version is_chunk_id is_field
is_citation c =
    is_document_id c.document_id
    && is_field 1 256 c.document_name
    && is_version c.document_version
    && leb 1 (length c.section)
    && leb (length c.section) 16
    && all_of (is_field 1 128) c.section
    && is_chunk_id c.chunk_id
    && all_of is_chunk_id c.chunk_ids
    && is_field 1 20000 c.content
    && is_primary c.chunk_id c.chunk_ids

pub record ReworkSuggestion : Type 0 where
  pub required : Bool
  pub type : Option ReworkType

pub record ReviewDraft : Type 0 where
  pub task_id : Text
  pub issue_id : Text
  pub conclusion : Conclusion
  pub problem_summary : Text
  pub review_comment : Text
  pub specification_references : List Citation
  pub suggested_rework : ReworkSuggestion

-- `ReworkSuggestion.validate_required_type_pair`.
unfoldable pub is_rework_pair : ReworkSuggestion → Bool
is_rework_pair r = if r.required then is_some r.type else not (is_some r.type)

abbrev pub requires_rework : Conclusion → Bool
requires_rework approved = false
requires_rework rejected = false
requires_rework rework_required = true

abbrev pub same_bool : Bool → Bool → Bool
same_bool true b = b
same_bool false b = not b

-- The source chunks of the references, in order.
chunks_of : Text → Text → List Text → List (Text × (Text × Text))
chunks_of document version [] = []
chunks_of document version (k ∷ ks) = (document, (version, k)) ∷ chunks_of document version ks

source_chunks : List Citation → List (Text × (Text × Text))
unfolding chunks_of
source_chunks [] = []
source_chunks (c ∷ cs) = chunks_of c.document_id c.document_version c.chunk_ids ++ source_chunks cs

-- `ReviewDraft.validate_conclusion_and_references`.
unfoldable pub is_consistent : ReviewDraft → Bool
unfolding source_chunks
is_consistent d =
    same_bool d.suggested_rework.required (requires_rework d.conclusion)
    && not (repeats (source_chunks d.specification_references))

-- All that the schema demands of an instance.
unfoldable pub is_review_draft : ReviewDraft → Bool
unfolding is_citation is_rework_pair is_consistent is_task_id is_business_id is_field
is_review_draft d =
    is_task_id d.task_id
    && is_business_id d.issue_id
    && is_field 1 2048 d.problem_summary
    && is_field 1 1000 d.review_comment
    && all_of is_citation d.specification_references
    && is_rework_pair d.suggested_rework
    && is_consistent d

-- Pydantic's part: `dump` is `model_dump(mode="json")`, and `read` takes a dict to the fields of a
-- draft, without the constraints. An instance that is dumped is read back as it was.
pub record Codec : Type 1 where
  pub Json : Type 0
  pub dump : ReviewDraft → Json
  pub read : Json → Option ReviewDraft
  pub read_dump : (d : ReviewDraft) → is_review_draft d ≡ true → read (dump d) ≡ some d

abbrev pub checked : Option ReviewDraft → Option ReviewDraft
checked none = none
checked (some d) = if is_review_draft d then some d else none

module _ (codec : Codec) where
  open codec use {Json, dump, read, read_dump}

  -- `ReviewDraft.model_validate`.
  abbrev pub model_validate : Json → Option ReviewDraft
  model_validate j = checked (read j)

  pub model_validate-dump :
      (d : ReviewDraft) → is_review_draft d ≡ true → model_validate (dump d) ≡ some d
  model_validate-dump d h = rw (read_dump d h) (rw h)

  pub model_validate_valid :
      (j : Json) (d : ReviewDraft) → model_validate j ≡ some d → is_review_draft d ≡ true
  model_validate_valid j d h = ground arith
