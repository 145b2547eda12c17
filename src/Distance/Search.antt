-- ===== src/Distance/Search.antt =====
-- sort.Search finds the first index at which a monotone test holds.
use node_util.Base.{
  ℕ, zero, suc, ◌+◌, ◌/◌, ◌≤◌, ◌<◌, ◌≡◌, Bool, true, false, inl, inr, Bool-cases, arith, ltb,
}
use node_util.Distance.{search_loop, search}

-- Every index below `r` fails the test, every index from `r` up to `n` passes it.
pub record Splits (f : ℕ → Bool) (n r : ℕ) : Type 0 where
  pub below : (k : ℕ) → k < r → f k ≡ false
  pub above : (k : ℕ) → r ≤ k → k < n → f k ≡ true
  pub bound : r ≤ n

module _ (f : ℕ → Bool) (n : ℕ) (mono : (k l : ℕ) → k ≤ l → l < n → f k ≡ true → f l ≡ true) where
  search_loop-Splits :
      (fuel i j : ℕ)
      → i ≤ j
      → j ≤ n
      → j < fuel + i
      → ((k : ℕ) → k < i → f k ≡ false)
      → ((k : ℕ) → j ≤ k → k < n → f k ≡ true)
      → Splits f n (search_loop fuel f i j)
  unfolding search_loop
  search_loop-Splits zero i j le bound enough low high = absurd (omega arith)
  search_loop-Splits (suc fuel) i j le bound enough low high = elim (Bool-cases (ltb i j)) [
    | inr done ↦
        rw (done, search_loop)
          (record { below = low; above = λ k p q. high k (ground arith) q; bound = omega arith })
    | inl more ↦ elim (Bool-cases (f ((i + j) / 2))) [
      | inl hit ↦
          rw (more, hit, search_loop)
            (search_loop-Splits fuel i ((i + j) / 2) (ground arith) (ground arith) (ground arith)
              low (λ k p q. mono ((i + j) / 2) k p q hit))
      | inr miss ↦
          rw (more, miss, search_loop)
            (search_loop-Splits fuel ((i + j) / 2 + 1) j (ground arith) bound (ground arith)
              (λ k p. not_true k p miss (ground arith)) high)
    ]
  ]
    where
      not_true :
          (k : ℕ) → k < (i + j) / 2 + 1 → f ((i + j) / 2) ≡ false → (i + j) / 2 < n → f k ≡ false
      not_true k p miss fits = elim (Bool-cases (f k)) [
        | inl e ↦ absurd (cc (mono k ((i + j) / 2) (omega arith) fits e))
        | inr e ↦ e
      ]

  -- On a monotone test the search returns the first index that passes, or n if none does.
  pub search-Splits : Splits f n (search n f)
  unfolding search
  search-Splits =
      search_loop-Splits (suc n) 0 n (omega arith) (omega arith) (omega arith)
        (λ k p. absurd (omega arith)) (λ k p q. absurd (omega arith))
