-- ===== src/Processor/Storage/Batch/Chunks.antt =====
-- The batches of server/processor/storage.go, put together.
use facto.Base.{
  ℕ, zero, suc, ◌+◌, ◌-◌, ◌≤◌, ◌<◌, ◌≡◌, refl, List, [], ◌∷◌, ◌++◌, arith, ◌∙◌, sym, ap, ap₂, ltb,
  length, take, drop, concat, All, inl, inr, Bool-cases, ltb→lt, ltb→le, if◌then◌else◌,
  take-length_le, length-take, length-drop, take-append-drop, append-nil,
}
use facto.Go.Time.{Time}
use facto.Processor.Storage.{EventData, max_batch_size}
use facto.Processor.Storage.Batch.{rows_from, batches_from, batches}

drop-nil {ℓ} : (A : Type ℓ) (n : ℕ) → drop {A = A} n [] ≡ []
drop-nil A zero = refl
drop-nil A (suc n) = refl

drop-drop {ℓ} : {A : Type ℓ} (n m : ℕ) (xs : List A) → drop n (drop m xs) ≡ drop (m + n) xs
drop-drop n zero xs = ap (λ k. drop k xs) (omega arith)
drop-drop {A} n (suc m) [] = drop-nil A n ∙ sym (drop-nil A (suc m + n))
drop-drop n (suc m) (x ∷ xs) =
    let e : suc (m + n) ≡ suc m + n = omega arith in drop-drop n m xs ∙ ap (λ k. drop k (x ∷ xs)) e

drop-length_le {ℓ} : {A : Type ℓ} (n : ℕ) (xs : List A) → length xs ≤ n → drop n xs ≡ []
drop-length_le zero [] h = refl
drop-length_le zero (x ∷ xs) h = absurd (omega arith)
drop-length_le (suc n) [] h = refl
drop-length_le (suc n) (x ∷ xs) h = drop-length_le n xs (omega arith)

module _ {R : Type 0} (row : Time → EventData → R) (now : ℕ → Time) where
  pub length-rows_from : (n : ℕ) (es : List EventData) → length (rows_from row now n es) ≡ length es
  unfolding rows_from
  length-rows_from n [] = refl
  length-rows_from n (e ∷ es) = ap suc (length-rows_from (suc n) es)

  rows_from-append :
      (n : ℕ) (xs ys : List EventData)
      → rows_from row now n (xs ++ ys)
        ≡ rows_from row now n xs ++ rows_from row now (n + length xs) ys
  unfolding rows_from
  rows_from-append n [] ys = ap (λ k. rows_from row now k ys) (omega arith)
  rows_from-append n (x ∷ xs) ys =
      ap (λ l. row (now n) x ∷ l)
        (rows_from-append (suc n) xs ys
          ∙ ap (λ k. rows_from row now (suc n) xs ++ rows_from row now k ys) (omega arith))

  rows_from-nil : (n : ℕ) → rows_from row now n [] ≡ []
  unfolding rows_from
  rows_from-nil n = refl

  -- The end of the batch that starts at `i`.
  abbrev batch_end : ℕ → List EventData → ℕ
  batch_end i es = if ltb (length es) (i + max_batch_size) then length es else i + max_batch_size

  -- The batch that starts at `i`, and what is left after it.
  split_at_end :
      (i : ℕ) (es : List EventData)
      → i < length es
      → rows_from row now i (take (batch_end i es - i) (drop i es))
          ++ rows_from row now (i + max_batch_size) (drop (i + max_batch_size) es)
        ≡ rows_from row now i (drop i es)
  split_at_end i es h = elim (Bool-cases (ltb (length es) (i + max_batch_size))) [
    | inl t ↦ rw t (
        ap₂ (λ a b. rows_from row now i a ++ rows_from row now (i + max_batch_size) b)
          (take-length_le (length es - i) (drop i es) (omega (arith, length-drop i es)))
          (drop-length_le (i + max_batch_size) es (omega (arith, ltb→lt _ _ t)))
        ∙ ap (λ l. rows_from row now i (drop i es) ++ l) (rows_from-nil (i + max_batch_size))
        ∙ append-nil _)
    | inr t ↦
        let k : i + max_batch_size - i ≡ max_batch_size = omega arith in
        let n : i + length (take max_batch_size (drop i es)) ≡ i + max_batch_size =
          omega (arith, length-take max_batch_size (drop i es), length-drop i es, ltb→le _ _ t) in
        rw (t, k, ← drop-drop max_batch_size i es)
          (ap
              (λ j.
                rows_from row now i (take max_batch_size (drop i es))
                ++ rows_from row now j (drop max_batch_size (drop i es)))
              (sym n)
            ∙ sym (
                rows_from-append i (take max_batch_size (drop i es))
                  (drop max_batch_size (drop i es)))
            ∙ ap (rows_from row now i) (take-append-drop max_batch_size (drop i es)))
  ]

  sized :
      (i : ℕ) (es : List EventData)
      → i < length es
      → (0 < length (rows_from row now i (take (batch_end i es - i) (drop i es))))
        × (length (rows_from row now i (take (batch_end i es - i) (drop i es))) ≤ max_batch_size)
  sized i es h =
      let part = take (batch_end i es - i) (drop i es) in
      ground (
        arith,
        length-rows_from i part,
        length-take (batch_end i es - i) (drop i es),
        length-drop i es,
      )

  -- What the loop has still to write.
  batches_from-concat :
      (fuel i : ℕ) (es : List EventData)
      → length es < fuel + i
      → concat (batches_from row now fuel i es) ≡ rows_from row now i (drop i es)
  unfolding batches_from
  batches_from-concat zero i es h =
      sym (ap (rows_from row now i) (drop-length_le i es (omega arith)) ∙ rows_from-nil i)
  batches_from-concat (suc fuel) i es h = elim (Bool-cases (ltb i (length es))) [
    | inl t ↦ rw t (
        ap (λ l. rows_from row now i (take (batch_end i es - i) (drop i es)) ++ l)
          (batches_from-concat fuel (i + max_batch_size) es (omega arith))
        ∙ split_at_end i es (ltb→lt _ _ t))
    | inr t ↦ rw (t, drop-length_le i es (ltb→le _ _ t)) (sym (rows_from-nil i))
  ]

  -- Each batch is within the limit, and none is empty.
  batches_from-All :
      (fuel i : ℕ) (es : List EventData)
      → All (λ b. (0 < length b) × (length b ≤ max_batch_size)) (batches_from row now fuel i es)
  unfolding batches_from
  batches_from-All zero i es = tt
  batches_from-All (suc fuel) i es = elim (Bool-cases (ltb i (length es))) [
    | inl t ↦ rw t (sized i es (ltb→lt _ _ t), batches_from-All fuel (i + max_batch_size) es)
    | inr t ↦ rw t tt
  ]

  -- The batches that the loop executes hold the rows of all events, in order, and each batch has at
  -- least one statement and at most 50.
  pub batches-cover :
      (es : List EventData)
      → (concat (batches row now es) ≡ rows_from row now 0 es)
        × All (λ b. (0 < length b) × (length b ≤ 50)) (batches row now es)
  unfolding batches
  batches-cover es = (
    batches_from-concat (suc (length es)) 0 es (omega arith),
    batches_from-All (suc (length es)) 0 es,
  )
