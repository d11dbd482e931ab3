-- ===== src/Project/Preprocessor/Meeting.antt =====
-- How the first loop of preprocessor::expand ends, and after how many rounds.
use server_engine_v.Common.{
  same_or_apart, ℕ, zero, suc, ◌+◌, ◌-◌, ◌*◌, ◌/◌, ◌≤◌, ◌<◌, ◌≡◌, ◌≢◌, ◌⊎◌, refl, sym, ap, ◌∙◌,
  subst, arith, true, false, ◌==◌, leb, Bool-cases, inl, inr, Option,
}
use server_engine_v.Project.Preprocessor.{Preprocessor, name_of}
use server_engine_v.Project.Preprocessor.Expansion.{PreprocessorExpansion, Race, ended, met, race}
use server_engine_v.Project.Preprocessor.Chain.{hop, nth, nth_at, nth_shift, nth_before, nth_period}
use server_engine_v.Project.Preprocessor.Pigeonhole.{stored-Repeats, AreStored, Repeats}
use server_engine_v.Project.Preprocessor.Race.{Describes, hop-some, round}
use server_engine_v.Project.Preprocessor.Validity.{IsValid}
use server_engine_v.Project.Preprocessor.Lookup.{binding, binding-Has}

-- The chain ends at some name, which the expansion describes.
abbrev pub Ends : (ℕ → Option ℕ) → ℕ → PreprocessorExpansion → Type 0
Ends b x output = (k : ℕ) × (nth b k x ≢ 0) × Describes b (nth b k x) output

-- After so many steps the name is the same as after twice as many.
abbrev pub Meets : (ℕ → Option ℕ) → ℕ → ℕ → Type 0
Meets b x r = (nth b r x ≢ 0) × (nth b r x ≡ nth b (r + r) x)

module _ (p : Preprocessor) (v : IsValid p) (x : ℕ) where
  nth_stored :
      nth (binding p) (p.definition_count + 1) x ≢ 0
      → AreStored (λ i. nth (binding p) i x) (p.definition_count + 1) p.definitions
  nth_stored used i low =
      let after : nth (binding p) (suc i) x ≢ 0 =
        nth_before (binding p) x (suc i) (p.definition_count + 1) (omega arith) used in
      let one = hop-some (binding p) (nth (binding p) i x) after in
      let slot =
        (binding-Has p v (nth (binding p) i x) one.0 (hop (binding p) (nth (binding p) i x))).0
          one.1 in
      (one.0, slot.0, ap name_of slot.1)

  -- A round up to a multiple of the period, beyond the first repeated name.
  Repeats-Meets :
      (n : ℕ)
      → nth (binding p) n x ≢ 0
      → Repeats (λ i. nth (binding p) i x) n
      → (m : ℕ) × (0 < m) × (m ≤ n) × Meets (binding p) x m
  Repeats-Meets n used (i, j, less, low, e) =
      let r = j - i in
      let t = i / r + 1 in
      let m = t * r in
      let above : i < m = grind arith in
      let below : m ≤ j = grind arith in
      let once : nth (binding p) (r + i) x ≡ nth (binding p) i x =
        nth_at (binding p) x (r + i) j (omega arith) ∙ sym e in
      let again =
        nth_shift (binding p) x (t * r + i) i (m - i) (nth_period (binding p) x i r t once) in
      (
        m,
        omega arith,
        omega arith,
        (
          nth_before (binding p) x m n (omega arith) used,
          nth_at (binding p) x m ((m - i) + i) (omega arith)
              ∙ sym again
              ∙ nth_at (binding p) x ((m - i) + (t * r + i)) (m + m) (omega arith),
        ),
      )

  -- Either the chain ends within the definitions, or the two names meet.
  pub Meets-in_time :
      (nth (binding p) (p.definition_count + 1) x ≡ 0)
      ⊎ ((m : ℕ) × (0 < m) × (m ≤ p.definition_count + 1) × Meets (binding p) x m)
  Meets-in_time = elim (same_or_apart (nth (binding p) (p.definition_count + 1) x) 0) [
    | inl e ↦ inl e
    | inr used ↦ inr (
        Repeats-Meets (p.definition_count + 1) used (
          stored-Repeats (λ i. nth (binding p) i x) (p.definition_count + 1) p.definitions
            (nth_stored used) (omega (arith, v.count))))
  ]

  abbrev pub RaceEnds : ℕ → Race → Type 0
  RaceEnds n outcome =
      ((output : PreprocessorExpansion) × (outcome ≡ ended output) × Ends (binding p) x output)
      ⊎ ((r : ℕ) × (0 < r)
          × (r ≤ n)
          × (outcome ≡ met (nth (binding p) r x))
          × Meets (binding p) x r)

  -- With fuel for the rounds up to a meeting the loop ends: at the end of the chain, or where the names meet.
  pub race-RaceEnds :
      (fuel r n : ℕ)
      → nth (binding p) (r + r) x ≢ 0
      → ((nth (binding p) n x ≡ 0) ⊎ ((m : ℕ) × (r < m) × (m ≤ n) × Meets (binding p) x m))
      → n < fuel + r
      → RaceEnds n (race fuel p (nth (binding p) r x) (nth (binding p) (r + r) x))
  race-RaceEnds zero r n used (inl e) h =
      absurd (nth_before (binding p) x n (r + r) (omega arith) used e)
  race-RaceEnds zero r n used (inr (m, less, low, _)) h = absurd (omega arith)
  race-RaceEnds (suc fuel) r n used sure h =
      elim (round p fuel (nth (binding p) r x) (nth (binding p) (r + r) x)
        (nth_before (binding p) x r (r + r) (omega arith) used) used) [
          | inl (output, y, e, d, which) ↦ inl (output, e, chain_end output y which d)
          | inr (more, e) ↦
              let twice : nth (binding p) (suc (suc (r + r))) x
                  ≡ nth (binding p) (suc r + suc r) x =
                nth_at (binding p) x (suc (suc (r + r))) (suc r + suc r) (omega arith) in
              elim (same_or_apart (nth (binding p) (suc r) x)
                (nth (binding p) (suc (suc (r + r))) x)) [
                  | inl same ↦
                      let test : (nth (binding p) (suc r) x
                            == nth (binding p) (suc (suc (r + r))) x)
                          ≡ true =
                        ground arith in
                      rw (e, test)
                        (inr (
                          suc r,
                          omega arith,
                          in_time sure,
                          refl,
                          ((λ z. more (sym same ∙ z)), same ∙ twice),
                        ))
                  | inr apart ↦
                      let test : (nth (binding p) (suc r) x
                            == nth (binding p) (suc (suc (r + r))) x)
                          ≡ false =
                        ground arith in
                      let rest =
                        race-RaceEnds fuel (suc r) n (λ z. more (twice ∙ z))
                          (later (λ same. apart (same ∙ sym twice)) sure) (omega arith) in
                      rw (e, test)
                        (subst (λ h'. RaceEnds n (race fuel p (nth (binding p) (suc r) x) h'))
                          (sym twice) rest)
                ]
        ]
    where
      chain_end :
          (output : PreprocessorExpansion) (y : ℕ)
          → (y ≡ nth (binding p) r x)
            ⊎ ((y ≡ nth (binding p) (r + r) x)
                ⊎ ((y ≡ hop (binding p) (nth (binding p) (r + r) x)) × (y ≢ 0)))
          → Describes (binding p) y output
          → Ends (binding p) x output
      chain_end output y (inl e) d = (
        r,
        nth_before (binding p) x r (r + r) (omega arith) used,
        subst (λ z. Describes (binding p) z output) e d,
      )
      chain_end output y (inr (inl e)) d =
          (r + r, used, subst (λ z. Describes (binding p) z output) e d)
      chain_end output y (inr (inr (e, y_used))) d =
          (suc (r + r), (λ z. y_used (e ∙ z)), subst (λ z. Describes (binding p) z output) e d)

      in_time :
          (nth (binding p) n x ≡ 0) ⊎ ((m : ℕ) × (r < m) × (m ≤ n) × Meets (binding p) x m)
          → suc r ≤ n
      in_time (inr (m, less, low, _)) = omega arith
      in_time (inl e) = elim (Bool-cases (leb n r)) [
        | inl short ↦ absurd (nth_before (binding p) x n (r + r) (ground arith) used e)
        | inr long ↦ ground arith
      ]

      later :
          nth (binding p) (suc r) x ≢ nth (binding p) (suc r + suc r) x
          → (nth (binding p) n x ≡ 0) ⊎ ((m : ℕ) × (r < m) × (m ≤ n) × Meets (binding p) x m)
          → (nth (binding p) n x ≡ 0) ⊎ ((m : ℕ) × (suc r < m) × (m ≤ n) × Meets (binding p) x m)
      later apart (inl e) = inl e
      later apart (inr (m, less, low, meets)) =
          let other : m ≢ suc r =
            λ e. apart (subst (λ k. nth (binding p) k x ≡ nth (binding p) (k + k) x) e meets.1) in
          inr (m, omega arith, low, meets)
