-- ===== src/Project/Probing/Paths.antt =====
-- The way of a probe: the positions that it passes, and the one at which it stops.
use server_engine_v.Common.{
  ℕ, zero, suc, ◌+◌, ◌-◌, ◌≤◌, ◌<◌, ◌≡◌, inl, inr, refl, sym, ap, subst, ◌∙◌, arith, Bool, true,
  false, ltb, if◌then◌else◌, Bool-cases,
}
use server_engine_v.Project.Probing.{probe, wrap}
use server_engine_v.Project.Probing.Capacity.{IsPower, wrap-lt, wrap_next}

-- After so many steps from a position the test holds for the first time, at the end.
abbrev pub Leads : ℕ → (ℕ → Bool) → ℕ → ℕ → ℕ → Type 0
Leads size stops zero current end = (stops current ≡ true) × (current ≡ end)
Leads size stops (suc steps) current end =
    (stops current ≡ false) × Leads size stops steps (wrap size (current + 1)) end

-- The end is reached in so many steps, and the test holds nowhere on the way, the end included.
abbrev pub Passes : ℕ → (ℕ → Bool) → ℕ → ℕ → ℕ → Type 0
Passes size stops zero current end = (stops current ≡ false) × (current ≡ end)
Passes size stops (suc steps) current end =
    (stops current ≡ false) × Passes size stops steps (wrap size (current + 1)) end

module _ (size : ℕ) (stops : ℕ → Bool) where
  pub probe-Leads :
      (fuel steps current end : ℕ)
      → Leads size stops steps current end
      → steps < fuel
      → probe fuel size stops current ≡ end
  unfolding probe
  probe-Leads zero steps current end way h = absurd (omega arith)
  probe-Leads (suc fuel) zero current end (hit, e) h = rw hit e
  probe-Leads (suc fuel) (suc steps) current end (miss, rest) h =
      rw miss (probe-Leads fuel steps (wrap size (current + 1)) end rest (omega arith))

  pub Leads_stops : (steps current end : ℕ) → Leads size stops steps current end → stops end ≡ true
  Leads_stops zero current end (hit, e) = subst (λ x. stops x ≡ true) e hit
  Leads_stops (suc steps) current end (miss, rest) =
      Leads_stops steps (wrap size (current + 1)) end rest

  pub Leads_same :
      (steps steps' current end end' : ℕ)
      → Leads size stops steps current end
      → Leads size stops steps' current end'
      → (steps ≡ steps') × (end ≡ end')
  Leads_same zero zero current end end' (_, e) (_, e') = (refl, sym e ∙ e')
  Leads_same zero (suc steps') current end end' (hit, _) (miss, _) = cc
  Leads_same (suc steps) zero current end end' (miss, _) (hit, _) = cc
  Leads_same (suc steps) (suc steps') current end end' (_, p) (_, q) =
      let both = Leads_same steps steps' (wrap size (current + 1)) end end' p q in
      (ap suc both.0, both.1)

  -- Where the test holds at some position, every probe ends within the table.
  reaches :
      IsPower size
      → (steps target current : ℕ) → stops target ≡ true
      → target < size
      → current < size
      → (if ltb target current then size - current + target else target - current) ≡ steps
      → (k : ℕ) × (end : ℕ) × Leads size stops k current end × (k ≤ steps)
  reaches power zero target current hit low low' e =
      let same : target ≡ current = ground arith in
      (0, current, (subst (λ x. stops x ≡ true) same hit, refl), omega arith)
  reaches power (suc steps) target current hit low low' e = elim (Bool-cases (stops current)) [
    | inl here ↦ (0, current, (here, refl), omega arith)
    | inr on ↦
        let far =
          reaches power steps target (wrap size (current + 1)) hit low
            (wrap-lt size power (current + 1))
            (rw (wrap_next size power current low') (ground arith)) in
        (suc far.0, far.1, (on, far.2), omega (arith, far.3))
  ]

  pub Leads_somewhere :
      IsPower size
      → (target current : ℕ) → stops target ≡ true
      → target < size
      → current < size
      → (k : ℕ) × (end : ℕ) × Leads size stops k current end × (k < size)
  Leads_somewhere power target current hit low low' =
      let far = reaches power _ target current hit low low' refl in
      (far.0, far.1, far.2, ground (arith, far.3))

  pub Leads-lt :
      IsPower size
      → (steps current end : ℕ) → current < size
      → Leads size stops steps current end
      → end < size
  Leads-lt power zero current end low (_, e) = omega arith
  Leads-lt power (suc steps) current end low (_, rest) =
      Leads-lt power steps (wrap size (current + 1)) end (wrap-lt size power (current + 1)) rest

  -- In a table where the test holds somewhere, the probe follows the way.
  pub probe_at :
      IsPower size
      → (target : ℕ) → stops target ≡ true
      → target < size
      → (steps current end : ℕ) → current < size
      → Leads size stops steps current end
      → probe size size stops current ≡ end
  probe_at power target hit low steps current end low' way =
      let far = Leads_somewhere power target current hit low low' in
      let same = Leads_same steps far.0 current end far.1 way far.2 in
      probe-Leads size steps current end way (omega (arith, same.0, far.3))
