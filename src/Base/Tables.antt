-- ===== src/Base/Tables.antt =====
-- A table by its primary key, its statements, and the protocol that a rule for each row makes of it.
-- A statement is atomic, and a constraint that a written row breaks refuses it.
use productline_agent.Base.{
  ◌≡◌, sym, ◌∙◌, Bool, true, Option, none, some, Text, text_eq, is_some, Result, ok, err,
  if◌then◌else◌, Option-cases, Bool-cases, inl, inr, some_injective,
}
use productline_agent.Base.Dict
use productline_agent.Base.Dict.{Dict, lookup-insert_cases}
use productline_agent.Base.Safety.{Protocol, Reaches}
use mathlib.Core.Path.{subst, subst₂}

pub data Refusal : Type 0 where
  refusal : Refusal

abbrev pub Written : Type 0 → Type 0 → Type 0
Written Row A = Result Refusal A × Dict Text Row

module _ {Row : Type 0} where
  abbrev write_if : {A : Type 0} → Bool → Row → A → Text → Dict Text Row → Written Row A
  write_if passed r a id db = if passed then (ok a, Dict.insert id r db) else (err refusal, db)

  -- `UPDATE ... SET f WHERE key = id AND test RETURNING`.
  unfoldable pub update_if :
      (Row → Bool) → Text → (Row → Bool) → (Row → Row) → Dict Text Row → Written Row (Option Row)
  update_if checks id test f db = elim (Dict.lookup id db) [
    | none ↦ (ok none, db)
    | some r ↦ if test r then write_if (checks (f r)) (f r) (some (f r)) id db else (ok none, db)
  ]

  -- `INSERT` of a row with a new key.
  unfoldable pub insert_new : (Row → Bool) → Text → Row → Dict Text Row → Written Row Row
  insert_new checks id r db =
      if is_some (Dict.lookup id db) then (err refusal, db) else write_if (checks r) r r id db

-- What holds of each row, and how a row may change.
pub record RowProtocol (Row : Type 0) : Type 1 where
  pub IsValid : Text → Row → Type 0
  pub Becomes : Row → Row → Type 0
  pub becomes_refl : (r : Row) → Becomes r r
  pub becomes_trans : (r s t : Row) → Becomes r s → Becomes s t → Becomes r t

module _ {Row : Type 0} (p : RowProtocol Row) where
  open p use {IsValid, Becomes, becomes_refl, becomes_trans}

  abbrev pub AllValid : Dict Text Row → Type 0
  AllValid db = (id : Text) (r : Row) → Dict.lookup id db ≡ some r → IsValid id r

  abbrev pub Continues : Dict Text Row → Dict Text Row → Type 0
  Continues db later =
      (id : Text) (r : Row)
      → Dict.lookup id db ≡ some r
      → (s : Row) × (Dict.lookup id later ≡ some s) × Becomes r s

  pub Continues-refl : (db : Dict Text Row) → Continues db db
  Continues-refl db id r h = (r, h, becomes_refl r)

  pub Continues-trans : (a b c : Dict Text Row) → Continues a b → Continues b c → Continues a c
  Continues-trans a b c e f id r h =
      let (s, hs, es) = e id r h in
      let (t, ht, et) = f id s hs in (t, ht, becomes_trans r s t es et)

  abbrev pub table_protocol : Protocol (Dict Text Row)
  table_protocol = record {
    Valid = AllValid;
    Evolves = Continues;
    evolves_refl = Continues-refl;
    evolves_trans = Continues-trans;
  }

  -- The write of one valid row that continues the row before, if there was one.
  pub insert-Reaches :
      (id : Text) (s : Row) (db : Dict Text Row)
      → AllValid db
      → IsValid id s
      → ((r : Row) → Dict.lookup id db ≡ some r → Becomes r s)
      → Reaches table_protocol db (Dict.insert id s db)
  insert-Reaches id s db valid valid_row continues = (
    λ j r h. elim (lookup-insert_cases id j s db) [
      | inl (same, new) ↦ subst₂ IsValid same (some_injective s r (sym new ∙ h)) valid_row
      | inr old ↦ valid j r (sym old ∙ h)
    ],
    λ j r h. elim (lookup-insert_cases id j s db) [
      | inl (same, new) ↦ (s, new, continues r (rw same h))
      | inr old ↦ (r, old ∙ h, becomes_refl r)
    ],
  )

  -- An update keeps the protocol if it does so on the row.
  pub update_if-Reaches :
      (checks : Row → Bool) (id : Text) (test : Row → Bool) (f : Row → Row) (db : Dict Text Row)
      → AllValid db
      → ((r : Row)
          → IsValid id r
          → test r ≡ true
          → checks (f r) ≡ true
          → IsValid id (f r) × Becomes r (f r))
      → Reaches table_protocol db (update_if checks id test f db).1
  unfolding update_if
  update_if-Reaches checks id test f db valid keeps = elim (Option-cases (Dict.lookup id db)) [
    | inl e ↦ rw (e, update_if) (valid, Continues-refl db)
    | inr (r, e) ↦ elim (Bool-cases (test r)) [
      | inl holds ↦ elim (Bool-cases (checks (f r))) [
        | inl passed ↦
            let kept = keeps r (valid id r e) holds passed in
            rw (e, update_if)
              (rw holds (
                rw passed (
                  insert-Reaches id (f r) db valid kept.0 (λ r' h.
                    subst (λ x. Becomes x (f r)) (some_injective r r' (sym e ∙ h)) kept.1))))
        | inr refused ↦ rw (e, update_if) (rw holds (rw refused (valid, Continues-refl db)))
      ]
      | inr other ↦ rw (e, update_if) (rw other (valid, Continues-refl db))
    ]
  ]

  -- A new valid row keeps the protocol.
  pub insert_new-Reaches :
      (checks : Row → Bool) (id : Text) (r : Row) (db : Dict Text Row)
      → AllValid db
      → (checks r ≡ true → IsValid id r)
      → Reaches table_protocol db (insert_new checks id r db).1
  unfolding insert_new
  insert_new-Reaches checks id r db valid fresh = elim (Option-cases (Dict.lookup id db)) [
    | inl e ↦ elim (Bool-cases (checks r)) [
      | inl passed ↦
          rw (e, insert_new)
            (rw passed (insert-Reaches id r db valid (fresh passed) (λ old h. cc (e, h))))
      | inr refused ↦ rw (e, insert_new) (rw refused (valid, Continues-refl db))
    ]
    | inr (old, e) ↦ rw (e, insert_new) (valid, Continues-refl db)
  ]
