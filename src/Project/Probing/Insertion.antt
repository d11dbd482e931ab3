-- ===== src/Project/Probing/Insertion.antt =====
-- Writing a new key where the search for a vacant slot ends.
use server_engine_v.Common.{
  ℕ, ◌+◌, ◌<◌, ◌≡◌, ◌≢◌, ◌⊎◌, ◌↔◌, sym, ap, ◌∙◌, subst, arith, inl, inr, List, length, get_or, set,
  length-set, get_or-set_self, get_or-set_ne, replicate, length-replicate, get_or-replicate,
  same_or_apart,
}
use server_engine_v.Project.Probing.{probe}
use server_engine_v.Project.Probing.Capacity.{IsPower, wrap-lt}
use server_engine_v.Project.Probing.Paths.{Leads, Leads_somewhere, Leads_stops, Leads-lt, probe_at}
use server_engine_v.Project.Probing.Slots.{free, start, HasRoom, IsPlaced, IsTable}
use server_engine_v.Project.Probing.Occupancy.{occupied, Has, occupied-set}
use server_engine_v.Project.Probing.Writes.{insert_new, insert_old}

-- the table t after the insertion of the slot into t0
pub record IsInserted {S : Type 0} (vacant : S) (key : S → ℕ) (hash : ℕ → ℕ) (t0 : List S)
    (slot : S) (t : List S) : Type 0 where
  pub size : length t ≡ length t0
  pub table : IsTable vacant key hash t
  pub held : (x : S) → key x ≢ 0 → Has vacant t x ↔ (Has vacant t0 x ⊎ (x ≡ slot))
  pub filled : occupied key t ≡ occupied key t0 + 1

module _ {S : Type 0} (vacant : S) (key : S → ℕ) (vacant_key : key vacant ≡ 0) (hash : ℕ → ℕ)
    (t : List S) (table : IsTable vacant key hash t) (slot : S) (used : key slot ≢ 0)
    (fresh : (i : ℕ) → key (get_or t i vacant) ≢ (key slot)) where
  -- A new slot may be written where the search for a vacant slot ends.
  pub written_IsInserted :
      (steps end : ℕ)
      → Leads (length t) (free vacant key t) steps (start vacant key hash t (key slot)) end
      → IsInserted vacant key hash t slot (set t end slot)
  written_IsInserted steps end way = record {
    size = length-set t end slot;
    table = record { power = rw (length-set t end slot) table.power; placed = placed };
    held = λ x h. (from x h, to x h);
    filled = ground (arith, occupied-set vacant key vacant_key t end slot low, gone);
  }
    where
      low : end < length t
      low =
          Leads-lt (length t) (free vacant key t) table.power steps
            (start vacant key hash t (key slot)) end
            (wrap-lt (length t) table.power (hash (key slot))) way

      gone : key (get_or t end vacant) ≡ 0
      gone =
          let hit =
            Leads_stops (length t) (free vacant key t) steps (start vacant key hash t (key slot))
              end way in
          ground arith

      here : get_or (set t end slot) end vacant ≡ slot
      here = get_or-set_self t end slot vacant low

      there : (i : ℕ) → i ≢ end → get_or (set t end slot) i vacant ≡ get_or t i vacant
      there i apart = get_or-set_ne t end i slot vacant apart

      placed :
          (i : ℕ)
          → key (get_or (set t end slot) i vacant) ≢ 0
          → IsPlaced vacant key hash (set t end slot) i
      placed i h = elim (same_or_apart i end) [
        | inl e ↦
            subst (λ x. IsPlaced vacant key hash (set t end slot) x) (sym e)
              (insert_new vacant key hash t slot end table.power fresh steps way)
        | inr apart ↦
            insert_old vacant key hash t slot end gone i apart
              (table.placed i (λ z. h (ap key (there i apart) ∙ z)))
      ]

      from : (x : S) → key x ≢ 0 → Has vacant (set t end slot) x → Has vacant t x ⊎ (x ≡ slot)
      from x h (i, e) = elim (same_or_apart i end) [
        | inl same ↦ inr (sym e ∙ ap (λ y. get_or (set t end slot) y vacant) same ∙ here)
        | inr apart ↦ inl (i, sym (there i apart) ∙ e)
      ]

      to : (x : S) → key x ≢ 0 → Has vacant t x ⊎ (x ≡ slot) → Has vacant (set t end slot) x
      to x h (inr e) = (end, here ∙ sym e)
      to x h (inl (i, e)) =
          let apart : i ≢ end =
            λ same. h (sym (ap key e) ∙ ap (λ y. key (get_or t y vacant)) same ∙ gone) in
          (i, there i apart ∙ e)

  module _ (room : HasRoom vacant key t) where
    pub insert-IsInserted : IsInserted vacant key hash t slot (
        set t
          (probe (length t) (length t) (free vacant key t) (start vacant key hash t (key slot)))
          slot)
    insert-IsInserted =
        let low = wrap-lt (length t) table.power (hash (key slot)) in
        let far =
          Leads_somewhere (length t) (free vacant key t) table.power room.0
            (start vacant key hash t (key slot)) (ground arith) room.1 low in
        let end =
          probe_at (length t) (free vacant key t) table.power room.0 (ground arith) room.1 far.0
            (start vacant key hash t (key slot)) far.1 low far.2 in
        rw end (written_IsInserted far.0 far.1 far.2)

-- A table of vacant slots is well formed.
pub replicate-IsTable :
    {S : Type 0} (vacant : S) (key : S → ℕ) (hash : ℕ → ℕ)
    → key vacant ≡ 0
    → (capacity : ℕ) → IsPower capacity
    → IsTable vacant key hash (replicate capacity vacant)
replicate-IsTable vacant key hash vacant_key capacity power = record {
  power = rw (length-replicate capacity vacant) power;
  placed = λ i h. absurd (h (ap key (get_or-replicate capacity i vacant) ∙ vacant_key));
}
