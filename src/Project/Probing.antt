-- ===== src/Project/Probing.antt =====
-- The open addressing that project/preprocessor/preprocessor.cpp and project/string/string_table.cpp
-- share: next_capacity (next_index_capacity), and a probe `while (…) current = (current + 1) & mask`
-- that ends where a test holds.
pub mod Capacity
pub mod Paths
pub mod Changes
pub mod Slots
pub mod Writes
pub mod Occupancy
pub mod Insertion
use Prim.Native.Nat.{bit_and}
use server_engine_v.Common.{
  ℕ, zero, suc, ◌+◌, ◌-◌, ◌*◌, ◌/◌, ◌^◌, Bool, true, false, ltb, ◌==◌, if◌then◌else◌, u64_mod,
}

-- the while loop of next_capacity
unfoldable pub grow : ℕ → ℕ → ℕ → ℕ
grow zero minimum capacity = 0
grow (suc fuel) minimum capacity =
    let rest = if ltb ((u64_mod - 1) / 2) capacity then 0 else grow fuel minimum (capacity * 2) in
    if ltb capacity minimum then rest else capacity

unfoldable pub next_capacity : ℕ → ℕ
unfolding grow
next_capacity required =
    if required == 0
    then 0
    else if ltb ((u64_mod - 1) / 2) required
    then 0
    else grow 64 (required * 2) 8

-- position & (size - 1)
abbrev pub wrap : ℕ → ℕ → ℕ
wrap size position = bit_and position (size - 1)

-- The probe from a position; the test says where it stops.
unfoldable pub probe : ℕ → ℕ → (ℕ → Bool) → ℕ → ℕ
probe zero size stops current = current
probe (suc fuel) size stops current =
    let rest = probe fuel size stops (wrap size (current + 1)) in
    if stops current then current else rest
