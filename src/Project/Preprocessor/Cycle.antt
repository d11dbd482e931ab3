-- ===== src/Project/Preprocessor/Cycle.antt =====
-- The second loop of preprocessor::expand, and what expand returns.
use server_engine_v.Common.{
  same_or_apart, ℕ, zero, suc, ◌+◌, ◌*◌, ◌≤◌, ◌<◌, ◌≡◌, ◌≢◌, ◌⊎◌, refl, sym, ap, ◌∙◌, subst, arith,
  Bool, true, false, ◌==◌, inl, inr, Option, some,
}
use server_engine_v.Status.{success}
use server_engine_v.Project.Preprocessor.{Preprocessor}
use server_engine_v.Project.Preprocessor.Expansion.{
  TransitionKind, PreprocessorExpansion, race, transition, is_next, find_entry, race_result,
  entry_result, expand,
}
use server_engine_v.Project.Preprocessor.Chain.{hop, nth, nth_at, nth_shift, nth_before, nth_period}
use server_engine_v.Project.Preprocessor.Race.{Describes, transition_cases}
use server_engine_v.Project.Preprocessor.Meeting.{
  Ends, Meets, RaceEnds, Meets-in_time, race-RaceEnds,
}
use server_engine_v.Project.Preprocessor.Validity.{IsValid}
use server_engine_v.Project.Preprocessor.Lookup.{binding}

-- The chain runs into a cycle, and the expansion is the first name of the chain that lies on it.
abbrev pub Cycles : (ℕ → Option ℕ) → ℕ → PreprocessorExpansion → Type 0
Cycles b x output =
    (m : ℕ) × (l : ℕ) × (0 < l)
    × (nth b m x ≢ 0)
    × (nth b (l + m) x ≡ nth b m x)
    × ((i : ℕ) → i < m → (j : ℕ) → 0 < j → nth b (j + i) x ≢ nth b i x)
    × (output ≡ PreprocessorExpansion.identifier (nth b m x))

described_ends :
    (b : ℕ → Option ℕ) (y : ℕ) (output : PreprocessorExpansion) → Describes b y output → hop b y ≡ 0
unfolding hop
described_ends b y output d = ground arith

module _ (p : Preprocessor) (x r : ℕ) (positive : 0 < r) (meets : Meets (binding p) x r) where
  transition-next :
      (y : ℕ)
      → y ≢ 0
      → hop (binding p) y ≢ 0
      → transition p y ≡ (TransitionKind.next, hop (binding p) y)
  transition-next y used more = elim (transition_cases p y used) [
    | inl (_, e) ↦ e
    | inr (kind, e, last, d) ↦ absurd (more (described_ends (binding p) y _ d))
  ]

  never_ends : (i : ℕ) → nth (binding p) i x ≢ 0
  never_ends i =
      let again = nth_period (binding p) x r r i (sym meets.1) in
      nth_before (binding p) x i (i * r + r) (grind arith) (λ z. meets.0 (sym again ∙ z))

  -- With fuel for r rounds the loop ends at the first name that comes again after r steps.
  find_entry_lem :
      (fuel j : ℕ)
      → j ≤ r
      → ((i : ℕ) → i < j → nth (binding p) i x ≢ nth (binding p) (r + i) x)
      → r < fuel + j
      → (m : ℕ) × (find_entry fuel p (nth (binding p) j x) (nth (binding p) (r + j) x)
          ≡ some (some (nth (binding p) m x)))
        × (nth (binding p) m x ≡ nth (binding p) (r + m) x)
        × ((i : ℕ) → i < m → nth (binding p) i x ≢ nth (binding p) (r + i) x)
  unfolding find_entry is_next
  find_entry_lem zero j le before h = absurd (omega arith)
  find_entry_lem (suc fuel) j le before h =
      elim (same_or_apart (nth (binding p) j x) (nth (binding p) (r + j) x)) [
        | inl same ↦
            let test : (nth (binding p) j x == nth (binding p) (r + j) x) ≡ true = ground arith in
            (j, rw test refl, same, before)
        | inr apart ↦
            let test : (nth (binding p) j x == nth (binding p) (r + j) x) ≡ false = ground arith in
            let short : j ≢ r = λ e.
              apart
                (subst (λ k. nth (binding p) k x ≡ nth (binding p) (r + k) x) (sym e) meets.1) in
            let one = transition-next (nth (binding p) j x) (never_ends j) (never_ends (suc j)) in
            let two =
              transition-next (nth (binding p) (r + j) x) (never_ends (r + j))
                (never_ends (suc (r + j))) in
            let on : nth (binding p) (suc (r + j)) x ≡ nth (binding p) (r + suc j) x =
              nth_at (binding p) x (suc (r + j)) (r + suc j) (omega arith) in
            let rest = find_entry_lem fuel (suc j) (omega arith) (longer apart) (omega arith) in
            (
              rest.0,
              rw (test, one, two)
                  (ap (λ y. find_entry fuel p (nth (binding p) (suc j) x) y) on ∙ rest.1),
              rest.2,
              rest.3,
            )
      ]
    where
      longer :
          nth (binding p) j x ≢ nth (binding p) (r + j) x
          → (i : ℕ) → i < suc j
          → nth (binding p) i x ≢ nth (binding p) (r + i) x
      longer apart i low = elim (same_or_apart i j) [
        | inl e ↦ subst (λ k. nth (binding p) k x ≢ nth (binding p) (r + k) x) (sym e) apart
        | inr less ↦ before i (omega arith)
      ]

  -- A name that comes again at all comes again after r steps.
  again_after :
      (i j : ℕ)
      → 0 < j
      → nth (binding p) (j + i) x ≡ nth (binding p) i x
      → nth (binding p) i x ≡ nth (binding p) (r + i) x
  again_after i zero h e = elim h [ ]
  again_after i (suc j) h e =
      let beyond : nth (binding p) (r + (r + i)) x ≡ nth (binding p) (r + i) x =
        nth_at (binding p) x (r + (r + i)) (i + (r + r)) (omega arith)
        ∙ nth_shift (binding p) x (r + r) r i (sym meets.1)
        ∙ nth_at (binding p) x (i + r) (r + i) (omega arith) in
      sym (nth_period (binding p) x i (suc j) r e)
      ∙ nth_at (binding p) x (r * suc j + i) (j * r + (r + i)) (grind arith)
      ∙ nth_period (binding p) x (r + i) r j beyond

  -- The second loop finds the entry of the cycle.
  pub find_entry-Cycles :
      (fuel : ℕ)
      → r < fuel
      → (output : PreprocessorExpansion) × (entry_result (find_entry fuel p x (nth (binding p) r x))
          ≡ some (success, output))
        × Cycles (binding p) x output
  unfolding entry_result
  find_entry-Cycles fuel h =
      let found =
        find_entry_lem fuel 0 (omega arith) (λ i low. absurd (omega arith)) (omega arith) in
      let begin : nth (binding p) (r + 0) x ≡ nth (binding p) r x =
        nth_at (binding p) x (r + 0) r (omega arith) in
      let same = ap (λ y. find_entry fuel p x y) (sym begin) ∙ found.1 in
      (
        PreprocessorExpansion.identifier (nth (binding p) found.0 x),
        rw same refl,
        (
          found.0,
          r,
          positive,
          never_ends found.0,
          sym found.2,
          λ i low j some_steps e. found.3 i low (again_after i j some_steps e),
          refl,
        ),
      )

-- With fuel for two rounds more than there are definitions, expand returns for each name that strings.contains accepts:
-- the last name of the chain of replacements, or the empty text if that name has an empty replacement;
-- and the first name on the cycle if the chain runs into one.
pub expand-Ends-or-Cycles :
    (known : ℕ → Bool) (p : Preprocessor)
    → known 0 ≡ false
    → IsValid p
    → (name : ℕ) → known name ≡ true
    → (fuel : ℕ) → p.definition_count + 1 < fuel
    → (output : PreprocessorExpansion) × (expand fuel known p name ≡ some (success, output))
      × (Ends (binding p) name output ⊎ Cycles (binding p) name output)
unfolding expand race_result
expand-Ends-or-Cycles known p invalid v name accepted fuel h =
    let used : name ≢ 0 = λ e. cc in
    by_race (
      race-RaceEnds p v name fuel 0 (p.definition_count + 1) used (Meets-in_time p v name)
        (omega arith))
  where
    by_race :
        RaceEnds p v name (p.definition_count + 1) (race fuel p name name)
        → (output : PreprocessorExpansion) × (expand fuel known p name ≡ some (success, output))
          × (Ends (binding p) name output ⊎ Cycles (binding p) name output)
    by_race (inl (output, e, ends)) = (output, rw (accepted, e) refl, inl ends)
    by_race (inr (r, positive, low, e, meets)) =
        let cycle = find_entry-Cycles p name r positive meets fuel (omega arith) in
        (cycle.0, rw (accepted, e) cycle.1, inr cycle.2)
