-- ===== src/Project/Probing/Changes.antt =====
-- How the way of a probe changes with the test, when a slot of the table is written.
use server_engine_v.Common.{
  ℕ, zero, suc, ◌+◌, ◌≤◌, ◌≡◌, ◌≢◌, ◌⊎◌, inl, inr, refl, sym, subst, arith, Bool, true, false, ◌==◌,
  Bool-cases,
}
use server_engine_v.Project.Probing.{wrap}
use server_engine_v.Project.Probing.Paths.{Leads, Passes, Leads_same}

module _ (size : ℕ) (stops stops' : ℕ → Bool) where
  -- A test that holds at no more positions on the way, and at its end, leads there as well.
  pub Leads_kept :
      ((i : ℕ) → stops i ≡ false → stops' i ≡ false)
      → (k current end : ℕ) → stops' end ≡ true
      → Leads size stops k current end
      → Leads size stops' k current end
  Leads_kept keep zero current end hit (_, e) = (subst (λ x. stops' x ≡ true) (sym e) hit, e)
  Leads_kept keep (suc k) current end hit (miss, rest) =
      (keep current miss, Leads_kept keep k (wrap size (current + 1)) end hit rest)

  -- A test that holds at the end holds there first, or earlier on the same way.
  pub Leads_shorter :
      (k current end : ℕ)
      → stops' end ≡ true
      → Leads size stops k current end
      → (j : ℕ) × (q : ℕ) × Leads size stops' j current q
        × (j ≤ k)
        × ((q ≡ end) ⊎ (stops q ≡ false))
  Leads_shorter zero current end hit (_, e) =
      (0, current, (subst (λ x. stops' x ≡ true) (sym e) hit, refl), omega arith, inl e)
  Leads_shorter (suc k) current end hit (miss, rest) = elim (Bool-cases (stops' current)) [
    | inl here ↦ (0, current, (here, refl), omega arith, inr miss)
    | inr on ↦
        let far = Leads_shorter k (wrap size (current + 1)) end hit rest in
        (suc far.0, far.1, (on, far.2), omega (arith, far.3), far.4)
  ]

  -- One slot may change freely, if no way from it leads to the end.
  pub Leads_avoiding :
      (hole end : ℕ)
      → ((j : ℕ) → Leads size stops j hole end → ⊥)
      → ((i : ℕ) → i ≢ hole → stops i ≡ false → stops' i ≡ false)
      → stops' end ≡ true
      → (k current : ℕ) → Leads size stops k current end
      → Leads size stops' k current end
  Leads_avoiding hole end unreached keep hit zero current (_, e) =
      (subst (λ x. stops' x ≡ true) (sym e) hit, e)
  Leads_avoiding hole end unreached keep hit (suc k) current (miss, rest) =
      elim (Bool-cases (current == hole)) [
        | inl same ↦
            let e : current ≡ hole = ground arith in
            absurd (unreached (suc k) (subst (λ x. Leads size stops (suc k) x end) e (miss, rest)))
        | inr other ↦
            let apart : current ≢ hole = ground arith in
            (
              keep current apart miss,
              Leads_avoiding hole end unreached keep hit k (wrap size (current + 1)) rest,
            )
      ]

  -- A way to a position where another test does not hold passes that position.
  pub Leads-Passes :
      ((i : ℕ) → stops i ≡ false → stops' i ≡ false)
      → (k current end : ℕ) → stops' end ≡ false
      → Leads size stops k current end
      → Passes size stops' k current end
  Leads-Passes keep zero current end miss (_, e) = (subst (λ x. stops' x ≡ false) (sym e) miss, e)
  Leads-Passes keep (suc k) current end miss (on, rest) =
      (keep current on, Leads-Passes keep k (wrap size (current + 1)) end miss rest)

module _ (size : ℕ) (stops : ℕ → Bool) where
  pub Passes-end : (j current i : ℕ) → Passes size stops j current i → stops i ≡ false
  Passes-end zero current i (miss, e) = subst (λ x. stops x ≡ false) e miss
  Passes-end (suc j) current i (_, rest) = Passes-end j (wrap size (current + 1)) i rest

  Passes-Leads :
      (j k current i end : ℕ)
      → Passes size stops j current i
      → Leads size stops k current end
      → (r : ℕ) × Leads size stops r i end × (r + j ≡ k)
  Passes-Leads zero k current i end (_, e) way =
      (k, subst (λ x. Leads size stops k x end) e way, omega arith)
  Passes-Leads (suc j) zero current i end (miss, _) (hit, _) = cc
  Passes-Leads (suc j) (suc k) current i end (_, rest) (_, way) =
      let far = Passes-Leads j k (wrap size (current + 1)) i end rest way in
      (far.0, far.1, omega (arith, far.2))

  -- A run that ends does not come back to where it began.
  pub Passes-apart :
      (j k current i end : ℕ)
      → Leads size stops (suc k) current end
      → Passes size stops j (wrap size (current + 1)) i
      → i ≢ current
  Passes-apart j k current i end way rest e =
      let far = Passes-Leads j k (wrap size (current + 1)) i end rest way.1 in
      let again = subst (λ x. Leads size stops far.0 x end) e far.1 in
      let same = Leads_same size stops (suc k) far.0 current end end way again in
      absurd (omega (arith, same.0, far.2))
