-- ===== src/Project/Preprocessor/Pigeonhole.antt =====
-- A sequence of names that all stand in a table of fewer slots repeats one.
use server_engine_v.Common.{
  same_or_apart, ℕ, zero, suc, ◌+◌, ◌<◌, ◌≡◌, ◌≢◌, ◌⊎◌, refl, sym, ap, ◌∙◌, arith, inl, inr, List,
  get_or, set, get_or-set_ne,
}
use server_engine_v.Project.Preprocessor.{DefineSlot, vacant, name_of, hash_name}
use server_engine_v.Project.Preprocessor.Occupancy.{occupied, occupied-set}
use server_engine_v.Project.Probing.Slots.{used-lt}

abbrev pub Repeats : (ℕ → ℕ) → ℕ → Type 0
Repeats s n = (i : ℕ) × (j : ℕ) × (i < j) × (j < n) × (s i ≡ s j)

-- the first names of the sequence stand in the table
abbrev pub AreStored : (ℕ → ℕ) → ℕ → List DefineSlot → Type 0
AreStored s n t = (i : ℕ) → i < n → (s i ≢ 0) × (j : ℕ) × ((get_or t j vacant).name ≡ s i)

module _ (s : ℕ → ℕ) where
  met_before : (n k : ℕ) → ((i : ℕ) × (i < n) × (s i ≡ s k)) ⊎ ((i : ℕ) → i < n → s i ≢ s k)
  met_before zero k = inr (λ i h. absurd (omega arith))
  met_before (suc n) k = elim (met_before n k) [
    | inl (i, low, e) ↦ inl (i, omega arith, e)
    | inr apart ↦ elim (same_or_apart (s n) (s k)) [
      | inl e ↦ inl (n, omega arith, e)
      | inr other ↦ inr (λ i h. elim (same_or_apart i n) [
        | inl same ↦ λ e. other (ap s (sym same) ∙ e)
        | inr less ↦ apart i (omega arith)
      ])
    ]
  ]

  Repeats-longer : (n : ℕ) → Repeats s n → Repeats s (suc n)
  Repeats-longer n (i, j, less, low, e) = (i, j, less, omega arith, e)

  pub stored-Repeats :
      (n : ℕ) (t : List DefineSlot) → AreStored s n t → occupied t < n → Repeats s n
  stored-Repeats zero t stored h = absurd (omega arith)
  stored-Repeats (suc n) t stored h = elim (met_before n n) [
    | inl (i, low, e) ↦ (i, n, low, omega arith, e)
    | inr apart ↦
        let last = stored n (omega arith) in
        let used : (get_or t last.1 vacant).name ≢ 0 = λ z. last.0 (sym last.2 ∙ z) in
        let low = used-lt vacant name_of refl hash_name t last.1 used in
        let fewer : occupied (set t last.1 vacant) + 1 ≡ occupied t =
          ground (arith, occupied-set t last.1 vacant low) in
        let rest : AreStored s n (set t last.1 vacant) = λ i h'.
          let one = stored i (omega arith) in
          let elsewhere : one.1 ≢ last.1 =
            λ e. apart i h' (sym one.2 ∙ ap (λ k. (get_or t k vacant).name) e ∙ last.2) in
          (
            one.0,
            one.1,
            ap name_of (get_or-set_ne t last.1 one.1 vacant vacant elsewhere) ∙ one.2,
          ) in
        Repeats-longer n (stored-Repeats n (set t last.1 vacant) rest (omega arith))
  ]
