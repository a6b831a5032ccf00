-- ===== src/Common/Chunks.antt =====
-- src/shared/common.js: the chunks of a list.
use event_queue.Prelude.{
  ◌≡◌, refl, sym, ap, ◌∙◌, ℕ, zero, suc, ◌+◌, ◌-◌, ◌≤◌, ◌<◌, some, List, [], ◌∷◌, ◌++◌, length,
  if◌then◌else◌, ltb, arith, All, Bool-cases, inl, inr,
}
use event_queue.Common.{take, drop, slice, chunks_from, process_chunked_sync}

abbrev pub concat : {A : Type 0} → List (List A) → List A
concat [] = []
concat (c ∷ cs) = c ++ concat cs

module _ {A : Type 0} where
  take-append-drop : (n : ℕ) (xs : List A) → take n xs ++ drop n xs ≡ xs
  take-append-drop zero xs = refl
  take-append-drop (suc n) [] = refl
  take-append-drop (suc n) (x ∷ xs) = ap (λ ys. x ∷ ys) (take-append-drop n xs)

  length-take : (n : ℕ) (xs : List A) → n ≤ length xs → length (take n xs) ≡ n
  length-take zero xs h = refl
  length-take (suc n) [] h = absurd (omega arith)
  length-take (suc n) (x ∷ xs) h = omega (arith, length-take n xs (omega arith))

  length-drop : (n : ℕ) (xs : List A) → length (drop n xs) ≡ length xs - n
  length-drop zero xs = omega arith
  length-drop (suc n) [] = omega arith
  length-drop (suc n) (x ∷ xs) = omega (arith, length-drop n xs)

  drop_all : (n : ℕ) (xs : List A) → length xs ≤ n → drop n xs ≡ []
  drop_all zero [] h = refl
  drop_all zero (x ∷ xs) h = absurd (omega arith)
  drop_all (suc n) [] h = refl
  drop_all (suc n) (x ∷ xs) h = drop_all n xs (omega arith)

  drop-nil : (n : ℕ) → drop {A = A} n [] ≡ []
  drop-nil zero = refl
  drop-nil (suc n) = refl

  drop-drop : (n m : ℕ) (xs : List A) → drop m (drop n xs) ≡ drop (n + m) xs
  drop-drop zero m xs = let e : 0 + m ≡ m = omega arith in rw e refl
  drop-drop (suc n) m [] = let e : suc n + m ≡ suc (n + m) = omega arith in rw e (drop-nil m)
  drop-drop (suc n) m (x ∷ xs) =
      let e : suc n + m ≡ suc (n + m) = omega arith in rw e (drop-drop n m xs)

  -- A chunk and what is behind it.
  slice-append-drop :
      (start end : ℕ) (xs : List A)
      → start ≤ end
      → slice start end xs ++ drop end xs ≡ drop start xs
  slice-append-drop start end xs h =
      let e : start + (end - start) ≡ end = omega arith in
      let behind : drop (end - start) (drop start xs) ≡ drop end xs =
        drop-drop start (end - start) xs ∙ ap (λ n. drop n xs) e in
      ap (λ l. slice start end xs ++ l) (sym behind)
      ∙ take-append-drop (end - start) (drop start xs)

  length-slice :
      (start end : ℕ) (xs : List A)
      → start ≤ end
      → end ≤ length xs
      → length (slice start end xs) ≡ end - start
  length-slice start end xs h k =
      length-take (end - start) (drop start xs) (omega (arith, length-drop start xs))

  abbrev pub IsChunk : (chunk_size : ℕ) → List A → Type 0
  IsChunk chunk_size c = (0 < length c) × (length c ≤ chunk_size)

  chunks_from-concat :
      (fuel chunk_size : ℕ) (inputs : List A) (start : ℕ)
      → 0 < chunk_size
      → length inputs - start < fuel
      → (cs : List (List A)) × (chunks_from fuel chunk_size inputs start ≡ some cs)
        × (concat cs ≡ drop start inputs)
        × All (IsChunk chunk_size) cs
  unfolding chunks_from
  chunks_from-concat zero chunk_size inputs start size enough = absurd (omega arith)
  chunks_from-concat (suc fuel) chunk_size inputs start size enough =
      let end =
        if ltb (length inputs) (start + chunk_size) then length inputs else start + chunk_size in
      elim (Bool-cases (ltb start (length inputs))) [
        | inl more ↦
            let below : start < length inputs = ground (arith, more) in
            let ahead : (start < end) × (end ≤ length inputs) × (end ≤ start + chunk_size) =
              ground (arith, below, size) in
            let (cs, runs, joined, sized) =
              chunks_from-concat fuel chunk_size inputs end size (omega (arith, ahead, enough)) in
            let long = length-slice start end inputs (omega (arith, ahead)) ahead.1 in
            (
              slice start end inputs ∷ cs,
              rw (more, runs) refl,
              ap (λ l. slice start end inputs ++ l) joined
                  ∙ slice-append-drop start end inputs (omega (arith, ahead)),
              ((omega (arith, long, ahead), omega (arith, long, ahead)), sized),
            )
        | inr over ↦ ([], rw over refl, sym (drop_all start inputs (ground (arith, over))), tt)
      ]

  -- With a chunk size above 0, `processChunkedSync` ends; its chunks are not empty, are not longer
  -- than the chunk size, and are the inputs in their order.
  pub process_chunked_sync-concat :
      (chunk_size : ℕ) (inputs : List A)
      → 0 < chunk_size
      → (cs : List (List A)) × (process_chunked_sync chunk_size inputs ≡ some cs)
        × (concat cs ≡ inputs)
        × All (IsChunk chunk_size) cs
  unfolding process_chunked_sync
  process_chunked_sync-concat chunk_size inputs size =
      chunks_from-concat (suc (length inputs)) chunk_size inputs 0 size (omega arith)
