-- ===== src/Ingest/Chunks.antt =====
-- services/rag-service/src/rag/ingest/chunking.py: the chunks that are kept, and the batches that
-- ingest/service.py embeds.
use rag_poc.Prelude.{
  ℕ, zero, suc, ◌≤◌, Text, ◌≡◌, refl, List, [], ◌∷◌, ◌++◌, All, take, drop, length, length-take-le,
  has_content, arith, if◌then◌else◌,
}

-- [chunk for chunk in chunks if chunk.strip()]
unfoldable pub keep_content : List Text → List Text
keep_content [] = []
keep_content (c ∷ cs) = if has_content c then c ∷ keep_content cs else keep_content cs

module _ {A : Type 0} where
  -- xs[start : start + size] for start in range(0, len(xs), size); the fuel is the number of
  -- elements left, which is enough when size is not 0.
  batches_on : ℕ → ℕ → List A → List (List A)
  batches_on zero size xs = []
  batches_on (suc fuel) size [] = []
  batches_on (suc fuel) size (x ∷ xs) =
      take size (x ∷ xs) ∷ batches_on fuel size (drop size (x ∷ xs))

  unfoldable pub batches : ℕ → List A → List (List A)
  unfolding batches_on
  batches size xs = batches_on (length xs) size xs

  abbrev pub concat : List (List A) → List A
  concat [] = []
  concat (xs ∷ xss) = xs ++ concat xss

  take-append-drop : (n : ℕ) (xs : List A) → take n xs ++ drop n xs ≡ xs
  take-append-drop zero xs = refl
  take-append-drop (suc n) [] = refl
  take-append-drop (suc n) (x ∷ xs) = rw (take-append-drop n xs)

  length-drop-le : (n : ℕ) (xs : List A) → length (drop n xs) ≤ length xs
  length-drop-le zero xs = omega arith
  length-drop-le (suc n) [] = omega arith
  length-drop-le (suc n) (x ∷ xs) = omega (arith, length-drop-le n xs)

  concat-batches_on :
      (fuel size : ℕ) (xs : List A) → length xs ≤ fuel → concat (batches_on fuel (suc size) xs) ≡ xs
  unfolding batches_on
  concat-batches_on zero size [] h = refl
  concat-batches_on zero size (x ∷ xs) h = absurd (omega arith)
  concat-batches_on (suc fuel) size [] h = refl
  concat-batches_on (suc fuel) size (x ∷ xs) h = rw (
    concat-batches_on fuel size (drop size xs) (omega (arith, length-drop-le size xs)),
    take-append-drop size xs,
  )

  -- The batches of any positive size, one after another, are the list: no element is lost, repeated
  -- or moved.
  pub concat-batches : (size : ℕ) (xs : List A) → concat (batches (suc size) xs) ≡ xs
  unfolding batches
  concat-batches size xs = concat-batches_on (length xs) size xs (omega arith)

  batches_on-fit :
      (fuel size : ℕ) (xs : List A)
      → All (λ b. (1 ≤ length b) × (length b ≤ suc size)) (batches_on fuel (suc size) xs)
  unfolding batches_on
  batches_on-fit zero size xs = tt
  batches_on-fit (suc fuel) size [] = tt
  batches_on-fit (suc fuel) size (x ∷ xs) = (
    (omega arith, omega (arith, length-take-le size xs)),
    batches_on-fit fuel size (drop size xs),
  )

  -- Every batch of a positive size holds at least one element and at most size elements.
  pub batches-fit :
      (size : ℕ) (xs : List A)
      → All (λ b. (1 ≤ length b) × (length b ≤ suc size)) (batches (suc size) xs)
  unfolding batches
  batches-fit size xs = batches_on-fit (length xs) size xs
