-- ===== src/SpireApi/Batch/Coverage.antt =====
-- The batches cover the elements exactly once and in order, and the fuel of the loop is enough.
use spire_controller_manager.Prelude.{
  ℕ, zero, suc, ◌+◌, ◌-◌, ◌≤◌, ◌<◌, min, ltb, true, List, [], ◌∷◌, ◌++◌, length, take, drop, ◌≡◌,
  refl, ap, ◌∙◌, arith, Bool-cases, inl, inr,
}
use spire_controller_manager.SpireApi.Batch.{Callback, batch_size, batch_loop, run_batch}

module _ {S : Type 0} (fn : Callback S) where
  -- more fuel than there are elements left changes nothing
  batch_loop-fuel :
      (f g size batch i : ℕ) (s : S)
      → 1 ≤ batch
      → size ≤ i + f
      → size ≤ i + g
      → batch_loop fn f size batch i s ≡ batch_loop fn g size batch i s
  unfolding batch_loop
  batch_loop-fuel zero zero size batch i s b hf hg = refl
  batch_loop-fuel zero (suc g) size batch i s b hf hg = ground arith
  batch_loop-fuel (suc f) zero size batch i s b hf hg = ground arith
  batch_loop-fuel (suc f) (suc g) size batch i s b hf hg = elim (Bool-cases (ltb i size)) [
    | inl y ↦ elim (Bool-cases (fn i (i + min (size - i) batch) s).0) [
      | inl r ↦
          rw (y, r)
            (batch_loop-fuel f g size batch (i + min (size - i) batch) _ b (ground arith)
              (ground arith))
      | inr r ↦ rw (y, r) refl
    ]
    | inr n ↦ rw n refl
  ]

-- the slice ins[start:end]
pub slice {ℓ} : {A : Type ℓ} → ℕ → ℕ → List A → List A
slice start end xs = take (end - start) (drop start xs)

-- the callback that collects the elements of its range
abbrev pub collect : {A : Type 0} → List A → Callback (List A)
collect xs start end s = (true, s ++ slice start end xs)

take-drop : {A : Type 0} (i n : ℕ) (xs : List A) → take i xs ++ take n (drop i xs) ≡ take (i + n) xs
take-drop zero n xs = ap (λ m. take m xs) (omega arith)
take-drop {A} (suc i) n [] = no_more n ∙ ap (λ m. take {A = A} m []) {x = suc (i + n)} (omega arith)
  where
    no_more : (n : ℕ) → take {A = A} n [] ≡ take {A = A} (suc (i + n)) []
    no_more zero = refl
    no_more (suc n) = refl
take-drop (suc i) n (x ∷ xs) =
    ap (◌∷◌ x) (take-drop i n xs) ∙ ap (λ m. take m (x ∷ xs)) {x = suc (i + n)} (omega arith)

take-slice :
    {A : Type 0} (i n : ℕ) (xs : List A) → take i xs ++ slice i (i + n) xs ≡ take (i + n) xs
unfolding slice
take-slice i n xs =
    ap (λ m. take i xs ++ take m (drop i xs)) {x = i + n - i} (omega arith) ∙ take-drop i n xs

take-all : {A : Type 0} (n : ℕ) (xs : List A) → length xs ≤ n → take n xs ≡ xs
take-all zero [] h = refl
take-all zero (x ∷ xs) h = ground arith
take-all (suc n) [] h = refl
take-all (suc n) (x ∷ xs) h = ap (◌∷◌ x) (take-all n xs (omega (arith, h)))

module _ {A : Type 0} (xs : List A) where
  collect-from :
      (f batch i : ℕ)
      → 1 ≤ batch
      → length xs ≤ i + f
      → batch_loop (collect xs) f (length xs) batch i (take i xs) ≡ (true, xs)
  unfolding batch_loop
  collect-from zero batch i b h = ap (λ l. (true, l)) (take-all i xs (omega (arith, h)))
  collect-from (suc f) batch i b h = elim (Bool-cases (ltb i (length xs))) [
    | inl y ↦
        rw (y, take-slice i (min (length xs - i) batch) xs)
          (collect-from f batch (i + min (length xs - i) batch) b (ground arith))
    | inr n ↦ rw n (ap (λ l. (true, l)) (take-all i xs (ground arith)))
  ]

-- runBatch hands every element to its callback, once and in order, whatever the batch size is: the
-- concatenation of the ranges is the whole list.
pub run_batch-covers :
    {A : Type 0} (xs : List A) (batch : ℕ)
    → run_batch (collect xs) (length xs) batch [] ≡ (true, xs)
unfolding run_batch batch_size batch_loop
run_batch-covers [] batch = refl
run_batch-covers (x ∷ xs) zero =
    collect-from (x ∷ xs) (suc (length xs)) (suc (length xs)) 0 (omega arith) (omega arith)
run_batch-covers (x ∷ xs) (suc n) =
    collect-from (x ∷ xs) (suc (length xs)) (suc n) 0 (omega arith) (omega arith)

module _ {S : Type 0} (fn : Callback S) (P : S → Type 0) where
  preserves-from :
      (f size batch i : ℕ) (s : S)
      → 1 ≤ batch
      → ((start end : ℕ) (s : S)
          → start < end
          → end ≤ size
          → end ≤ start + batch
          → P s
          → P (fn start end s).1)
      → P s
      → P (batch_loop fn f size batch i s).1
  unfolding batch_loop
  preserves-from zero size batch i s b step p = p
  preserves-from (suc f) size batch i s b step p = elim (Bool-cases (ltb i size)) [
    | inl y ↦ elim (Bool-cases (fn i (i + min (size - i) batch) s).0) [
      | inl r ↦
          rw (y, r)
            (preserves-from f size batch (i + min (size - i) batch) _ b step
              (step i (i + min (size - i) batch) s (ground arith) (ground arith) (ground arith) p))
      | inr r ↦
          rw (y, r)
            (step i (i + min (size - i) batch) s (ground arith) (ground arith) (ground arith) p)
    ]
    | inr n ↦ rw n p
  ]

  -- What every call of the callback preserves, runBatch preserves; each call has a range that is not
  -- empty, lies within the list and is no longer than a batch, where a batch size is given.
  pub run_batch-preserves :
      (size batch : ℕ) (s : S)
      → 1 ≤ batch
      → ((start end : ℕ) (s : S)
          → start < end
          → end ≤ size
          → end ≤ start + batch
          → P s
          → P (fn start end s).1)
      → P s
      → P (run_batch fn size batch s).1
  unfolding run_batch batch_size
  run_batch-preserves size (suc n) s b step p =
      preserves-from size size (suc n) 0 s (omega arith) step p
  run_batch-preserves size zero s b step p = ground arith
