-- ===== src/Base/Sorting.antt =====
-- Python's `sorted` with a key, as a stable insertion sort by a Boolean order.
use mathlib.Core.Path.{◌≡◌}
use mathlib.Core.Bool.{Bool, true, false}
use mathlib.Core.Logic.{inl, inr}
use mathlib.Core.List.{List, [], ◌∷◌, Perm}
use mathlib.Core.List.Perm
use productline_agent.Base.Tests.{if◌then◌else◌, Bool-cases, ltb, nat_beq}
use productline_agent.Base.Lists.{All}
use productline_agent.Base.Texts.{Text}

module _ {A : Type 0} (leq : A → A → Bool) where
  -- Before the first element that is not smaller.
  unfoldable pub insert_sorted : A → List A → List A
  insert_sorted x [] = x ∷ []
  insert_sorted x (y ∷ ys) = if leq x y then x ∷ y ∷ ys else y ∷ insert_sorted x ys

  unfoldable pub sorted : List A → List A
  unfolding insert_sorted
  sorted [] = []
  sorted (x ∷ xs) = insert_sorted x (sorted xs)

  insert_sorted-perm : (x : A) (ys : List A) → Perm (insert_sorted x ys) (x ∷ ys)
  unfolding insert_sorted
  insert_sorted-perm x [] = Perm.refl (x ∷ [])
  insert_sorted-perm x (y ∷ ys) = elim (Bool-cases (leq x y)) [
    | inl before ↦ rw before (Perm.refl (x ∷ y ∷ ys))
    | inr after ↦ rw after (Perm.trans (Perm.cons y (insert_sorted-perm x ys)) (Perm.swap x y ys))
  ]

  -- Sorting permutes.
  pub sorted-perm : (xs : List A) → Perm (sorted xs) xs
  unfolding sorted
  sorted-perm [] = Perm.refl []
  sorted-perm (x ∷ xs) =
      Perm.trans (insert_sorted-perm x (sorted xs)) (Perm.cons x (sorted-perm xs))

  -- Each element is smaller than or equal to all behind it.
  abbrev pub IsSorted : List A → Type 0
  IsSorted [] = Unit
  IsSorted (x ∷ xs) = All (λ y. leq x y ≡ true) xs × IsSorted xs

  pub All-insert_sorted :
      (P : A → Type 0) (x : A) (ys : List A) → P x → All P ys → All P (insert_sorted x ys)
  unfolding insert_sorted
  All-insert_sorted P x [] px pys = (px, tt)
  All-insert_sorted P x (y ∷ ys) px pys = elim (Bool-cases (leq x y)) [
    | inl before ↦ rw before (px, pys)
    | inr after ↦ rw after (pys.0, All-insert_sorted P x ys px pys.1)
  ]

  All-trans :
      (trans : (a b c : A) → leq a b ≡ true → leq b c ≡ true → leq a c ≡ true) (x y : A)
      (ys : List A)
      → leq x y ≡ true
      → All (λ z. leq y z ≡ true) ys
      → All (λ z. leq x z ≡ true) ys
  All-trans trans x y [] h all = tt
  All-trans trans x y (z ∷ zs) h all = (trans x y z h all.0, All-trans trans x y zs h all.1)

  insert_sorted-IsSorted :
      ((a b : A) → leq a b ≡ false → leq b a ≡ true)
      → ((a b c : A) → leq a b ≡ true → leq b c ≡ true → leq a c ≡ true)
      → (x : A) (ys : List A) → IsSorted ys
      → IsSorted (insert_sorted x ys)
  unfolding insert_sorted
  insert_sorted-IsSorted total trans x [] h = (tt, tt)
  insert_sorted-IsSorted total trans x (y ∷ ys) h = elim (Bool-cases (leq x y)) [
    | inl before ↦ rw before ((before, All-trans trans x y ys before h.0), h)
    | inr after ↦ rw after (
      All-insert_sorted (λ z. leq y z ≡ true) x ys (total x y after) h.0,
      insert_sorted-IsSorted total trans x ys h.1,
    )
  ]

  -- By a total and transitive order, the result is in order.
  pub sorted-IsSorted :
      ((a b : A) → leq a b ≡ false → leq b a ≡ true)
      → ((a b c : A) → leq a b ≡ true → leq b c ≡ true → leq a c ≡ true)
      → (xs : List A) → IsSorted (sorted xs)
  unfolding sorted
  sorted-IsSorted total trans [] = tt
  sorted-IsSorted total trans (x ∷ xs) =
      insert_sorted-IsSorted total trans x (sorted xs) (sorted-IsSorted total trans xs)

-- The order of two texts, by their code points.
unfoldable pub text_leb : Text → Text → Bool
text_leb [] t = true
text_leb (c ∷ s) [] = false
text_leb (c ∷ s) (d ∷ t) =
    let rest = text_leb s t in if ltb c d then true else if nat_beq c d then rest else false
