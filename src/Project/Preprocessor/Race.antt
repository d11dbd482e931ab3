-- ===== src/Project/Preprocessor/Race.antt =====
-- The first loop of preprocessor::expand: one name follows the chain, another at twice the speed.
use server_engine_v.Common.{
  ℕ, suc, ◌≡◌, ◌≢◌, ◌⊎◌, refl, arith, false, ◌==◌, Bool-cases, inl, inr, Option, some, none,
  if◌then◌else◌, get_or,
}
use server_engine_v.Project.Preprocessor.{Preprocessor, is_empty, position, vacant}
use server_engine_v.Project.Preprocessor.Expansion.{
  TransitionKind, PreprocessorExpansion, ended, met, race, transition, terminal, is_next,
}
use server_engine_v.Project.Preprocessor.Chain.{hop}
use server_engine_v.Project.Preprocessor.Lookup.{binding}

-- the expansion of a name at which a chain ends
abbrev pub Describes : (ℕ → Option ℕ) → ℕ → PreprocessorExpansion → Type 0
Describes b y output =
    ((b y ≡ none) × (output ≡ PreprocessorExpansion.identifier y))
    ⊎ ((b y ≡ some 0) × (output ≡ PreprocessorExpansion.empty))

pub hop-some : (b : ℕ → Option ℕ) (y : ℕ) → hop b y ≢ 0 → (y ≢ 0) × (b y ≡ some (hop b y))
unfolding hop
hop-some b y h = (ground arith, ground arith)

module _ (p : Preprocessor) where
  -- What transition does at a name.
  pub transition_cases :
      (y : ℕ)
      → y ≢ 0
      → ((hop (binding p) y ≢ 0) × (transition p y ≡ (TransitionKind.next, hop (binding p) y)))
        ⊎ ((kind : TransitionKind) × (transition p y ≡ (kind, 0))
            × (is_next kind ≡ false)
            × Describes (binding p) y (terminal kind y))
  unfolding transition hop is_next terminal
  transition_cases y h = elim (Bool-cases (is_empty p.definitions)) [
    | inl empty ↦ inr (TransitionKind.identifier, rw empty refl, refl, inl (rw empty refl, refl))
    | inr some_slots ↦
        elim (Bool-cases ((get_or p.definitions (position p.definitions y) vacant).name == y)) [
          | inr other ↦ inr (
            TransitionKind.identifier,
            rw (some_slots, other) refl,
            refl,
            inl (rw (some_slots, other) refl, refl),
          )
          | inl here ↦
              elim (Bool-cases
                ((get_or p.definitions (position p.definitions y) vacant).replacement == 0)) [
                  | inl gone ↦ inr (
                    TransitionKind.empty,
                    rw (some_slots, here, gone) refl,
                    refl,
                    inr (ground arith, refl),
                  )
                  | inr kept ↦ inl (ground arith, ground arith)
                ]
        ]
  ]

  -- One round: the end of the chain is met, or all three steps are made.
  pub round :
      (fuel t h : ℕ)
      → t ≢ 0
      → h ≢ 0
      → ((output : PreprocessorExpansion) × (y : ℕ) × (race (suc fuel) p t h ≡ ended output)
          × Describes (binding p) y output
          × ((y ≡ t) ⊎ ((y ≡ h) ⊎ ((y ≡ hop (binding p) h) × (y ≢ 0)))))
        ⊎ ((hop (binding p) (hop (binding p) h) ≢ 0)
            × (race (suc fuel) p t h ≡ (
                if hop (binding p) t == hop (binding p) (hop (binding p) h)
                then met (hop (binding p) t)
                else race fuel p (hop (binding p) t) (hop (binding p) (hop (binding p) h)))))
  unfolding race is_next
  round fuel t h used used' = elim (transition_cases t used) [
    | inr (kind, e, last, d) ↦ inl (terminal kind t, t, rw (e, last) refl, d, inl refl)
    | inl (more, e) ↦ elim (transition_cases h used') [
      | inr (kind, e', last, d) ↦ inl (terminal kind h, h, rw (e, e', last) refl, d, inr (inl refl))
      | inl (more', e') ↦ elim (transition_cases (hop (binding p) h) more') [
        | inr (kind, e'', last, d) ↦ inl (
          terminal kind (hop (binding p) h),
          hop (binding p) h,
          rw (e, e', e'', last) refl,
          d,
          inr (inr (refl, more')),
        )
        | inl (more'', e'') ↦ inr (more'', rw (e, e', e'') refl)
      ]
    ]
  ]
