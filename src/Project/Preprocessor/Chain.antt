-- ===== src/Project/Preprocessor/Chain.antt =====
-- The chain of names that replace one another under a map of bindings.
use server_engine_v.Common.{
  ℕ, zero, suc, ◌+◌, ◌-◌, ◌*◌, ◌≤◌, ◌≡◌, ◌≢◌, ap, ◌∙◌, arith, ◌==◌, Option, some, none,
  if◌then◌else◌,
}

-- One replacement: 0 if there is none, or if it is empty.
unfoldable pub hop : (ℕ → Option ℕ) → ℕ → ℕ
hop b name = if name == 0 then 0 else elim (b name) [ none ↦ 0 | some replacement ↦ replacement ]

-- the name after so many replacements
abbrev pub nth : (ℕ → Option ℕ) → ℕ → ℕ → ℕ
nth b zero name = name
nth b (suc k) name = hop b (nth b k name)

module _ (b : ℕ → Option ℕ) (x : ℕ) where
  pub nth_at : (m n : ℕ) → m ≡ n → nth b m x ≡ nth b n x
  nth_at m n e = ap (λ k. nth b k x) e

  pub nth_shift : (i j k : ℕ) → nth b i x ≡ nth b j x → nth b (k + i) x ≡ nth b (k + j) x
  nth_shift i j zero e = nth_at (0 + i) i (omega arith) ∙ e ∙ nth_at j (0 + j) (omega arith)
  nth_shift i j (suc k) e =
      nth_at (suc k + i) (suc (k + i)) (omega arith)
      ∙ ap (hop b) (nth_shift i j k e)
      ∙ nth_at (suc (k + j)) (suc k + j) (omega arith)

  -- The chain does not come back from its end.
  pub nth_ended : (i k : ℕ) → nth b i x ≡ 0 → nth b (k + i) x ≡ 0
  unfolding hop
  nth_ended i zero e = nth_at (0 + i) i (omega arith) ∙ e
  nth_ended i (suc k) e =
      nth_at (suc k + i) (suc (k + i)) (omega arith) ∙ ap (hop b) (nth_ended i k e)

  pub nth_before : (i j : ℕ) → i ≤ j → nth b j x ≢ 0 → nth b i x ≢ 0
  nth_before i j le used e = used (nth_at j ((j - i) + i) (omega arith) ∙ nth_ended i (j - i) e)

  -- What repeats after r steps repeats after any number of times r steps.
  pub nth_period : (i r t : ℕ) → nth b (r + i) x ≡ nth b i x → nth b (t * r + i) x ≡ nth b i x
  nth_period i r zero e = nth_at (0 * r + i) i (omega arith)
  nth_period i r (suc t) e =
      nth_at (suc t * r + i) (t * r + (r + i)) (grind arith)
      ∙ nth_shift (r + i) i (t * r) e
      ∙ nth_period i r t e
