-- ===== src/Project/Probing/Occupancy.antt =====
-- The slots of a table that hold a key.
use server_engine_v.Common.{
  ℕ, zero, suc, ◌+◌, ◌<◌, ◌≡◌, refl, arith, ◌==◌, Bool-cases, inl, inr, if◌then◌else◌, List, [],
  ◌∷◌, length, get_or, set, replicate,
}
use server_engine_v.Project.Probing.Slots.{HasRoom}

module _ {S : Type 0} (key : S → ℕ) where
  abbrev pub weight : S → ℕ
  weight slot = if key slot == 0 then 0 else 1

  abbrev pub occupied : List S → ℕ
  occupied [] = 0
  occupied (slot ∷ slots) = weight slot + occupied slots

-- a slot that the table holds
abbrev pub Has : {S : Type 0} → S → List S → S → Type 0
Has vacant t slot = (i : ℕ) × (get_or t i vacant ≡ slot)

module _ {S : Type 0} (vacant : S) (key : S → ℕ) (vacant_key : key vacant ≡ 0) where
  pub occupied-set :
      (t : List S) (i : ℕ) (slot : S)
      → i < length t
      → occupied key (set t i slot) + weight key (get_or t i vacant)
        ≡ occupied key t + weight key slot
  occupied-set [] i slot h = absurd (omega arith)
  occupied-set (x ∷ t) zero slot h = omega arith
  occupied-set (x ∷ t) (suc i) slot h = omega (arith, occupied-set t i slot (omega arith))

  pub occupied-HasRoom : (t : List S) → occupied key t < length t → HasRoom vacant key t
  occupied-HasRoom [] h = absurd (omega arith)
  occupied-HasRoom (x ∷ t) h = elim (Bool-cases (key x == 0)) [
    | inl free ↦ (0, omega arith, ground arith)
    | inr used ↦
        let rest = occupied-HasRoom t (ground arith) in (suc rest.0, omega (arith, rest.1), rest.2)
  ]

  pub occupied-replicate : (n : ℕ) → occupied key (replicate n vacant) ≡ 0
  occupied-replicate zero = refl
  occupied-replicate (suc n) = ground (arith, occupied-replicate n)
