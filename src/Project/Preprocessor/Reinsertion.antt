-- ===== src/Project/Preprocessor/Reinsertion.antt =====
-- The loop of preprocessor::undefine from its first round to its last.
use server_engine_v.Common.{
  ℕ, zero, suc, ◌+◌, ◌<◌, ◌≡◌, ◌≢◌, ◌↔◌, refl, sym, ap, ◌∙◌, arith, true, false, List, length,
  get_or, length-set,
}
use server_engine_v.Project.Preprocessor.{
  DefineSlot, vacant, name_of, hash_name, reinsert, vacant_at,
}
use server_engine_v.Project.Preprocessor.Occupancy.{occupied, Has, occupied-set}
use server_engine_v.Project.Preprocessor.Moves.{
  IsDistinct, moved, cleared, cleared_here, cleared_there, occupied-moved,
}
use server_engine_v.Project.Preprocessor.Removal.{
  IsDefineTable, IsReinserting, here_low, here_used, spot, next_IsReinserting,
}
use server_engine_v.Project.Probing.{wrap}
use server_engine_v.Project.Probing.Paths.{Leads, Passes, Leads_somewhere}
use server_engine_v.Project.Probing.Changes.{Leads-Passes, Passes-apart}
use server_engine_v.Project.Probing.Slots.{key_at, fits, HasRoom, IsPlaced, used-lt, keys_differ}
use server_engine_v.Project.Probing.Writes.{erase_old}

-- the table t after the removal of the name from t0
pub record IsRemoved (t0 : List DefineSlot) (name : ℕ) (t : List DefineSlot) : Type 0 where
  pub size : length t ≡ length t0
  pub table : IsDefineTable t
  pub held : (slot : DefineSlot) → slot.name ≢ 0 → Has t slot ↔ (Has t0 slot × (slot.name ≢ name))

module _ (t0 : List DefineSlot) (table : IsDefineTable t0) (name : ℕ) where
  settled_IsRemoved :
      (t : List DefineSlot) (c : ℕ) → IsReinserting t0 name t c 0 → IsRemoved t0 name t
  settled_IsRemoved t c inv = record {
    size = inv.size;
    table = record {
      power = rw inv.size table.power;
      placed = λ i named. inv.settled i named (off i);
    };
    held = inv.held;
  }
    where
      off : (i j : ℕ) → Passes (length t0) (vacant_at t0) j c i → ⊥
      off i zero (miss, _) = let hit = inv.run.1.0 in cc
      off i (suc j) (miss, _) = let hit = inv.run.1.0 in cc

  -- With fuel for the slots of the run the loop leaves a table of the same slots.
  pub reinsert-IsRemoved :
      (fuel k : ℕ) (t : List DefineSlot) (c : ℕ)
      → IsReinserting t0 name t c k
      → k < fuel
      → IsRemoved t0 name (reinsert fuel t c) × (occupied (reinsert fuel t c) ≡ occupied t)
  unfolding reinsert
  reinsert-IsRemoved zero k t c inv h = absurd (omega arith)
  reinsert-IsRemoved (suc fuel) zero t c inv h =
      let hit = inv.run.1.0 in
      let gone : vacant_at t c ≡ true = ground (arith, inv.vacated c (ground arith)) in
      rw gone (settled_IsRemoved t c inv, refl)
  reinsert-IsRemoved (suc fuel) (suc k) t c inv h =
      let low = here_low t0 table name t c k inv in
      let used = here_used t0 table name t c k inv in
      let there = spot t0 table name t c k inv in
      let kept : vacant_at t c ≡ false = ground arith in
      let again =
        next_IsReinserting t0 table name t c k inv there.0 there.2 there.3 there.4 there.5
          there.6 in
      let rest =
        reinsert-IsRemoved fuel k (moved t c there.0) (wrap (length t0) (c + 1)) again
          (omega arith) in
      rw (kept, there.1, inv.size) (rest.0, rest.1 ∙ occupied-moved t c there.0 low there.2 there.3)

  module _ (room : HasRoom vacant name_of t0) (g : ℕ) (used : (get_or t0 g vacant).name ≢ 0)
      (named : (get_or t0 g vacant).name ≡ name) where
    low : g < length t0
    low = used-lt vacant name_of refl hash_name t0 g used

    apart_after : (i : ℕ) → (get_or (cleared t0 g) i vacant).name ≢ 0 → i ≢ g
    apart_after i h e = h (
        ap (λ x. (get_or (cleared t0 g) x vacant).name) e
        ∙ ap name_of (cleared_here t0 g g low low))

    first_run :
        (k : ℕ) × (k < length t0) × (end : ℕ) × Leads (length t0) (vacant_at t0) (suc k) g end
    first_run =
        let far =
          Leads_somewhere (length t0) (vacant_at t0) table.power room.0 g (ground arith) room.1
            low in
        longer far.0 far.1 far.2 far.3
      where
        longer :
            (k end : ℕ)
            → Leads (length t0) (vacant_at t0) k g end
            → k < length t0
            → (k : ℕ) × (k < length t0) × (end : ℕ) × Leads (length t0) (vacant_at t0) (suc k) g end
        longer zero end (hit, _) h = absurd (used (ground arith))
        longer (suc k) end way h = (k, omega arith, end, way)

    still : (i : ℕ) → i ≢ g → get_or (cleared t0 g) i vacant ≡ get_or t0 i vacant
    still i apart = cleared_there t0 g g low low i apart

    first_settled :
        (i : ℕ)
        → (get_or (cleared t0 g) i vacant).name ≢ 0
        → ((j : ℕ) → Passes (length t0) (vacant_at t0) j (wrap (length t0) (g + 1)) i → ⊥)
        → IsPlaced vacant name_of hash_name (cleared t0 g) i
    first_settled i h off =
        let apart = apart_after i h in
        let h0 : (get_or t0 i vacant).name ≢ 0 = λ z. h (ap name_of (still i apart) ∙ z) in
        erase_old vacant name_of hash_name t0 vacant g i apart (unreached apart h0)
          (table.placed i h0)
      where
        unreached :
            i ≢ g
            → (get_or t0 i vacant).name ≢ 0
            → (j : ℕ) → Leads (length t0) (fits vacant name_of t0 (get_or t0 i vacant).name) j g i
            → ⊥
        unreached apart h0 zero (_, e) = apart (sym e)
        unreached apart h0 (suc j) (_, way) = off j (
            Leads-Passes (length t0) (fits vacant name_of t0 (get_or t0 i vacant).name)
              (vacant_at t0) (λ x miss. ground arith) j (wrap (length t0) (g + 1)) i (ground arith)
              way)

    first-IsDistinct : IsDistinct (cleared t0 g)
    first-IsDistinct i j h same =
        let apart = apart_after i h in
        let apart' = apart_after j (λ z. h (same ∙ z)) in
        keys_differ vacant name_of refl hash_name t0 table i j
          (λ z. h (ap name_of (still i apart) ∙ z))
          (sym (ap name_of (still i apart)) ∙ same ∙ ap name_of (still j apart'))

    first_held :
        (slot : DefineSlot)
        → slot.name ≢ 0
        → Has (cleared t0 g) slot ↔ (Has t0 slot × (slot.name ≢ name))
    first_held slot h = (from, to)
      where
        from : Has (cleared t0 g) slot → Has t0 slot × (slot.name ≢ name)
        from (i, e) =
            let apart = apart_after i (λ z. h (sym (ap name_of e) ∙ z)) in
            let before = sym (still i apart) ∙ e in
            (
              (i, before),
              λ z. apart (
                  sym (
                    keys_differ vacant name_of refl hash_name t0 table g i used
                      (named ∙ sym z ∙ sym (ap name_of before)))),
            )

        to : Has t0 slot × (slot.name ≢ name) → Has (cleared t0 g) slot
        to ((i, e), other) =
            let apart : i ≢ g = λ same.
              other (sym (ap name_of e) ∙ ap (λ x. (get_or t0 x vacant).name) same ∙ named) in
            (i, still i apart ∙ e)

    first_pending :
        (k end i j : ℕ)
        → Leads (length t0) (vacant_at t0) (suc k) g end
        → Passes (length t0) (vacant_at t0) j (wrap (length t0) (g + 1)) i
        → get_or (cleared t0 g) i vacant ≡ get_or t0 i vacant
    first_pending k end i j run way =
        still i (Passes-apart (length t0) (vacant_at t0) j k g i end run way)

    first_vacated :
        (i : ℕ) → key_at vacant name_of t0 i ≡ 0 → key_at vacant name_of (cleared t0 g) i ≡ 0
    first_vacated i z =
        let apart : i ≢ g = λ e. used (ap (λ x. (get_or t0 x vacant).name) (sym e) ∙ z) in
        ap name_of (still i apart) ∙ z

    -- Clearing the slot of a name and inserting the run after it again removes the name alone.
    pub removal-IsRemoved :
        IsRemoved t0 name (reinsert (length t0) (cleared t0 g) (wrap (length t0) (g + 1)))
        × (occupied (reinsert (length t0) (cleared t0 g) (wrap (length t0) (g + 1))) + 1
            ≡ occupied t0)
    removal-IsRemoved =
        let run = first_run in
        let begin : IsReinserting t0 name (cleared t0 g) (wrap (length t0) (g + 1)) run.0 = record {
          size = length-set t0 g vacant;
          vacated = first_vacated;
          run = (run.2, run.3.1);
          pending = λ i j way. first_pending run.0 run.2 i j run.3 way;
          settled = first_settled;
          distinct = first-IsDistinct;
          held = first_held;
        } in
        let done =
          reinsert-IsRemoved (length t0) run.0 (cleared t0 g) (wrap (length t0) (g + 1)) begin
            run.1 in
        (done.0, ground (arith, done.1, occupied-set t0 g vacant low))
