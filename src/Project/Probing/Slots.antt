-- ===== src/Project/Probing/Slots.antt =====
-- A table of slots with a key each, in which the key 0 marks a vacant slot.
use server_engine_v.Common.{
  ℕ, zero, suc, ◌+◌, ◌-◌, ◌≤◌, ◌<◌, ◌≡◌, ◌≢◌, ◌⊎◌, inl, inr, refl, sym, ap, subst, ◌∙◌, arith, Bool,
  true, false, ◌||◌, ◌==◌, Bool-cases, List, length, get_or, get_or_outside,
}
use server_engine_v.Project.Probing.{probe, wrap}
use server_engine_v.Project.Probing.Capacity.{IsPower, wrap-lt}
use server_engine_v.Project.Probing.Paths.{
  Leads, Leads_same, Leads_somewhere, Leads_stops, Leads-lt, probe_at,
}

module _ {S : Type 0} (vacant : S) (key : S → ℕ) where
  abbrev pub key_at : List S → ℕ → ℕ
  key_at t i = key (get_or t i vacant)

  -- where an insertion stops, and where a search stops
  abbrev pub free : List S → ℕ → Bool
  free t i = key_at t i == 0

  abbrev pub fits : List S → ℕ → ℕ → Bool
  fits t k i = key_at t i == 0 || key_at t i == k

  abbrev pub HasRoom : List S → Type 0
  HasRoom t = (v : ℕ) × (v < length t) × (key_at t v ≡ 0)

module _ {S : Type 0} (vacant : S) (key : S → ℕ) (hash : ℕ → ℕ) where
  abbrev pub start : List S → ℕ → ℕ
  start t k = wrap (length t) (hash k)

  -- The search for the key of a slot ends at that slot.
  abbrev pub IsPlaced : List S → ℕ → Type 0
  IsPlaced t i =
      (steps : ℕ) × Leads (length t) (fits vacant key t (key_at vacant key t i)) steps
        (start t (key_at vacant key t i)) i

  pub record IsTable (t : List S) : Type 0 where
    pub power : IsPower (length t)
    pub placed : (i : ℕ) → key_at vacant key t i ≢ 0 → IsPlaced t i

module _ {S : Type 0} (vacant : S) (key : S → ℕ) (vacant_key : key vacant ≡ 0) (hash : ℕ → ℕ) where
  pub used-lt : (t : List S) (i : ℕ) → key_at vacant key t i ≢ 0 → i < length t
  used-lt t i used = elim (Bool-cases (server_engine_v.Common.ltb i (length t))) [
    | inl low ↦ ground arith
    | inr high ↦ absurd (used (ap key (get_or_outside t i vacant (ground arith)) ∙ vacant_key))
  ]

  module _ (t : List S) (table : IsTable vacant key hash t) where
    pub keys_differ :
        (i j : ℕ)
        → key_at vacant key t i ≢ 0
        → key_at vacant key t i ≡ key_at vacant key t j
        → i ≡ j
    keys_differ i j used same =
        let used' : key_at vacant key t j ≢ 0 = λ e. used (same ∙ e) in
        let first = table.placed i used in
        let second = table.placed j used' in
        let second' =
          subst
            (λ (k : ℕ).
              Leads (length t) (fits vacant key t k) second.0 (start vacant key hash t k) j)
            (sym same) second.1 in
        (Leads_same (length t) (fits vacant key t (key_at vacant key t i)) first.0 second.0
          (start vacant key hash t (key_at vacant key t i)) i j first.1 second').1

    module _ (room : HasRoom vacant key t) where
      -- The search for a key that a slot has ends there.
      pub search_finds :
          (i : ℕ)
          → key_at vacant key t i ≢ 0
          → probe
              (length t)
              (length t)
              (fits vacant key t (key_at vacant key t i))
              (start vacant key hash t (key_at vacant key t i))
            ≡ i
      search_finds i used =
          let way = table.placed i used in
          probe_at (length t) (fits vacant key t (key_at vacant key t i)) table.power room.0
            (ground arith) room.1 way.0 (start vacant key hash t (key_at vacant key t i)) i
            (wrap-lt (length t) table.power (hash (key_at vacant key t i))) way.1

      -- Any search ends in the table, at a vacant slot or at the key.
      pub search_ends :
          (k : ℕ)
          → (i : ℕ) × (probe (length t) (length t) (fits vacant key t k) (start vacant key hash t k)
              ≡ i)
            × (i < length t)
            × ((key_at vacant key t i ≡ 0) ⊎ (key_at vacant key t i ≡ k))
            × (steps : ℕ) × Leads
                (length t)
                (fits vacant key t k)
                steps
                (start vacant key hash t k)
                i
      search_ends k =
          let low = wrap-lt (length t) table.power (hash k) in
          let far =
            Leads_somewhere (length t) (fits vacant key t k) table.power room.0
              (start vacant key hash t k) (ground arith) room.1 low in
          let hit =
            Leads_stops (length t) (fits vacant key t k) far.0 (start vacant key hash t k) far.1
              far.2 in
          (
            far.1,
            probe_at (length t) (fits vacant key t k) table.power room.0 (ground arith) room.1 far.0
                (start vacant key hash t k) far.1 low far.2,
            Leads-lt (length t) (fits vacant key t k) table.power far.0 (start vacant key hash t k)
                far.1 low far.2,
            (ground arith),
            far.0,
            far.2,
          )
