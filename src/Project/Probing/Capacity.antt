-- ===== src/Project/Probing/Capacity.antt =====
-- next_capacity: the size of a table, and how its mask wraps a position.
use server_engine_v.Common.{
  ℕ, zero, suc, ◌+◌, ◌-◌, ◌*◌, ◌/◌, ◌%◌, ◌^◌, ◌≤◌, ◌<◌, ◌≡◌, refl, arith, false, ltb, ◌==◌,
  if◌then◌else◌, u64_mod, Bool-cases, inl, inr,
}
use server_engine_v.Common.Masks.{bit_and_mask}
use native.Mathlib.Nat.{pow-suc, one-le-pow}
use server_engine_v.Project.Probing.{grow, next_capacity, wrap}

-- the sizes at which `& mask` is a remainder
abbrev pub IsPower : ℕ → Type 0
IsPower size = (k : ℕ) × (size ≡ 2 ^ k)

pub wrap_mod : (size : ℕ) → IsPower size → (position : ℕ) → wrap size position ≡ position % size
wrap_mod size (k, e) position = rw e (bit_and_mask k position)

pub IsPower-pos : (size : ℕ) → IsPower size → 0 < size
IsPower-pos size (k, e) = rw e (one-le-pow k 2 (omega arith))

pub wrap-lt : (size : ℕ) → IsPower size → (position : ℕ) → wrap size position < size
wrap-lt size p position = ground (arith, wrap_mod size p position, IsPower-pos size p)

pub wrap_next :
    (size : ℕ)
    → IsPower size
    → (position : ℕ) → position < size
    → wrap size (position + 1) ≡ (if ltb (position + 1) size then position + 1 else 0)
wrap_next size p position h = grind (arith, wrap_mod size p (position + 1))

move_factor :
    (a twice_a b twice_b n : ℕ)
    → a * 2 ≡ twice_a
    → twice_b ≡ b * 2
    → n ≤ a * twice_b
    → n ≤ twice_a * b
move_factor a twice_a b twice_b n e e' h =
    rw (← e) (let h' : n ≤ a * (b * 2) = rw e' at h in grind arith)

grow_lem :
    (fuel exponent minimum k : ℕ)
    → minimum ≤ 2 ^ k * 2 ^ exponent
    → exponent < fuel
    → minimum ≤ 2 ^ 63
    → IsPower (grow fuel minimum (2 ^ k))
      × (minimum ≤ grow fuel minimum (2 ^ k))
      × (2 ^ k ≤ grow fuel minimum (2 ^ k))
unfolding grow
grow_lem zero exponent minimum k reach h bound = absurd (omega arith)
grow_lem (suc fuel) zero minimum k reach h bound =
    let enough : ltb (2 ^ k) minimum ≡ false = ground arith in
    rw enough ((k, refl), ground arith, ground arith)
grow_lem (suc fuel) (suc exponent) minimum k reach h bound =
    elim (Bool-cases (ltb (2 ^ k) minimum)) [
      | inr enough ↦ rw enough ((k, refl), ground arith, ground arith)
      | inl more ↦
          let low : ltb ((u64_mod - 1) / 2) (2 ^ k) ≡ false = ground arith in
          let twice : 2 ^ k * 2 ≡ 2 ^ suc k = omega (arith, pow-suc 2 k) in
          let next =
            grow_lem fuel exponent minimum (suc k)
              (move_factor (2 ^ k) (2 ^ suc k) (2 ^ exponent) (2 ^ suc exponent) minimum twice
                (pow-suc 2 exponent) reach)
              (omega arith) bound in
          rw (more, low, twice) (next.0, next.1, omega (arith, next.2))
    ]

pub next_capacity_lem :
    (required : ℕ)
    → 0 < required
    → required ≤ 2 ^ 62
    → IsPower (next_capacity required)
      × (required * 2 ≤ next_capacity required)
      × (8 ≤ next_capacity required)
unfolding next_capacity
next_capacity_lem required positive bound =
    let one : (required == 0) ≡ false = ground arith in
    let low : ltb ((u64_mod - 1) / 2) required ≡ false = ground arith in
    rw (one, low) (grow_lem 64 60 (required * 2) 3 (omega arith) (omega arith) (omega arith))
