-- ===== src/Catalogue/Rollup/Batches.antt =====
-- `_batched` of core/rollup.py loses nothing and keeps its bound.
use mathlib.Core.List.{append_assoc}
use fathomline.Prelude.{
  ℕ, ◌≤◌, ◌<◌, List, [], ◌∷◌, ◌++◌, length, length-append, leb, All, ◌≡◌, refl, arith, ap, ◌∙◌,
  Bool-cases, inl, inr,
}
use fathomline.Catalogue.Rollup.{batches_from, batched}

module _ {A : Type 0} where
  abbrev pub together : List (List A) → List A
  together [] = []
  together (batch ∷ batches) = batch ++ together batches

  abbrev pub Bounded : ℕ → List A → Type 0
  Bounded size batch = (0 < length batch) × (length batch ≤ size)

  batches_from-Bounded :
      (size : ℕ) (batch rows : List A)
      → length batch < size
      → (together (batches_from size batch rows) ≡ batch ++ rows)
        × All (Bounded size) (batches_from size batch rows)
  unfolding batches_from
  batches_from-Bounded size [] [] h = (refl, tt)
  batches_from-Bounded size (x ∷ batch) [] h = (refl, ((omega arith, omega arith), tt))
  batches_from-Bounded size batch (row ∷ rows) h =
      let n = length-append batch (row ∷ []) in
      elim (Bool-cases (leb size (length (batch ++ row ∷ [])))) [
        | inl full ↦
            let (same, bound) = batches_from-Bounded size [] rows (omega arith) in
            rw full (
              ap (λ rs. (batch ++ row ∷ []) ++ rs) same ∙ append_assoc batch (row ∷ []) rows,
              ((omega (arith, n), omega (arith, n)), bound),
            )
        | inr some_room ↦
            let room : length (batch ++ row ∷ []) < size = ground (arith, some_room) in
            let (same, bound) = batches_from-Bounded size (batch ++ row ∷ []) rows room in
            rw some_room (same ∙ append_assoc batch (row ∷ []) rows, bound)
      ]

  -- For a size of at least one, the batches put together are the rows, in order, and each batch has
  -- at least one row and at most that many.
  pub batched-Bounded :
      (rows : List A) (size : ℕ)
      → 0 < size
      → (together (batched rows size) ≡ rows) × All (Bounded size) (batched rows size)
  unfolding batched
  batched-Bounded rows size h = batches_from-Bounded size [] rows h
