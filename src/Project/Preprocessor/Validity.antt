-- ===== src/Project/Preprocessor/Validity.antt =====
-- What each operation of preprocessor.cpp does to the slots of a well-formed table.
use server_engine_v.Common.{
  ℕ, ◌+◌, ◌-◌, ◌*◌, ◌/◌, ◌^◌, ◌≤◌, ◌≡◌, ◌≢◌, ◌⊎◌, ◌↔◌, refl, sym, ap, ◌∙◌, arith, false, ltb, ◌==◌,
  Bool-cases, inl, inr, List, [], length, get_or, replicate, u64_mod, length-replicate,
  get_or-replicate,
}
use server_engine_v.Status.{success, succeeded}
use server_engine_v.Project.Probing.{next_capacity}
use server_engine_v.Project.Probing.Capacity.{next_capacity_lem}
use server_engine_v.Project.Preprocessor.{
  DefineSlot, Preprocessor, vacant, name_of, hash_name, ensure_capacity, insert_all, is_empty,
  define_new,
}
use server_engine_v.Project.Preprocessor.Occupancy.{occupied, Has, occupied-HasRoom}
use server_engine_v.Project.Preprocessor.Moves.{IsDistinct}
use server_engine_v.Project.Preprocessor.Removal.{IsDefineTable}
use server_engine_v.Project.Preprocessor.Insertion.{position-IsInserted}
use server_engine_v.Project.Probing.Insertion.{replicate-IsTable}
use server_engine_v.Project.Probing.Occupancy
use server_engine_v.Project.Preprocessor.Rehash.{IsFilled, insert_all-IsFilled}
use server_engine_v.Project.Probing.Slots.{HasRoom, keys_differ}

-- No table yet, or one in which each name is found; at most half of the slots hold a name.
pub record IsValid (p : Preprocessor) : Type 0 where
  pub shape : (p.definitions ≡ []) ⊎ IsDefineTable p.definitions
  pub count : occupied p.definitions ≡ p.definition_count
  pub load : p.definition_count * 2 ≤ length p.definitions

-- the slots of p, with room for one more
pub record IsPrepared (p p' : Preprocessor) : Type 0 where
  pub table : IsDefineTable p'.definitions
  pub held : (x : DefineSlot) → x.name ≢ 0 → Has p'.definitions x ↔ Has p.definitions x
  pub same_count : p'.definition_count ≡ p.definition_count
  pub count : occupied p'.definitions ≡ p.definition_count
  pub load : (p.definition_count + 1) * 2 ≤ length p'.definitions

nothing_held : (xs : List DefineSlot) (x : DefineSlot) → xs ≡ [] → x.name ≢ 0 → Has xs x → ⊥
nothing_held xs x e h (i, same) = h (sym (ap name_of same) ∙ ap (λ l. (get_or l i vacant).name) e)

pub valid-IsDistinct : (p : Preprocessor) → IsValid p → IsDistinct p.definitions
valid-IsDistinct p v = distinct v.shape
  where
    distinct : (p.definitions ≡ []) ⊎ IsDefineTable p.definitions → IsDistinct p.definitions
    distinct (inl e) i j h same = absurd (h (ap (λ l. (get_or l i vacant).name) e))
    distinct (inr table) i j h same =
        keys_differ vacant name_of refl hash_name p.definitions table i j h same

-- At least one slot is vacant in a table that is half full.
pub valid-HasRoom :
    (p : Preprocessor)
    → IsValid p
    → IsDefineTable p.definitions
    → HasRoom vacant name_of p.definitions
valid-HasRoom p v table = occupied-HasRoom p.definitions (
    ground (
      arith,
      v.count,
      v.load,
      server_engine_v.Project.Probing.Capacity.IsPower-pos (length p.definitions) table.power,
    ))

module _ (p : Preprocessor) (v : IsValid p) (bound : p.definition_count + 1 ≤ 2 ^ 62) where
  kept_IsPrepared :
      is_empty p.definitions ≡ false
      → ltb (length p.definitions / 2) (p.definition_count + 1) ≡ false
      → IsPrepared p p
  kept_IsPrepared some_slots enough = record {
    table = table v.shape;
    held = λ x h. (λ w. w, λ w. w);
    same_count = refl;
    count = v.count;
    load = ground arith;
  }
    where
      table : (p.definitions ≡ []) ⊎ IsDefineTable p.definitions → IsDefineTable p.definitions
      table (inl e) = absurd (let n : length p.definitions ≡ 0 = ap length e in ground arith)
      table (inr t) = t

  grown : Preprocessor
  grown = record p {
    definitions =
        insert_all (replicate (next_capacity (p.definition_count + 1)) vacant) p.definitions;
  }

  grown-IsPrepared : IsPrepared p grown
  unfolding grown
  grown-IsPrepared =
      let capacity = next_capacity (p.definition_count + 1) in
      let large = next_capacity_lem (p.definition_count + 1) (omega arith) bound in
      let fresh = replicate capacity vacant in
      let n : length fresh ≡ capacity = length-replicate capacity vacant in
      let f : IsFilled fresh p.definitions (insert_all fresh p.definitions) =
        insert_all-IsFilled p.definitions fresh
          (replicate-IsTable vacant name_of hash_name refl capacity large.0) (valid-IsDistinct p v)
          (λ i j h e. h (sym e ∙ ap name_of (get_or-replicate capacity j vacant)))
          (omega (
            arith,
            n,
            Occupancy.occupied-replicate vacant name_of refl capacity,
            v.count,
            v.load,
            large.1,
          )) in
      record {
        table = f.table;
        held = λ x h. (
          λ w. elim ((f.held x h).0 w) [
            | inl (i, e) ↦
                absurd (h (sym (ap name_of e) ∙ ap name_of (get_or-replicate capacity i vacant)))
            | inr old ↦ old
          ],
          λ w. (f.held x h).1 (inr w),
        );
        same_count = refl;
        count =
            omega
              (arith, f.filled, Occupancy.occupied-replicate vacant name_of refl capacity, v.count);
        load = omega (arith, f.size, n, large.1);
      }

  -- There is always room for one more name.
  pub ensure_capacity-IsPrepared :
      IsPrepared p (ensure_capacity p 1).0 × ((ensure_capacity p 1).1 ≡ success)
  unfolding ensure_capacity grown
  ensure_capacity-IsPrepared =
      let large = next_capacity_lem (p.definition_count + 1) (omega arith) bound in
      let low : ltb (u64_mod - 1 - p.definition_count) 1 ≡ false = ground arith in
      let capacity : (next_capacity (p.definition_count + 1) == 0) ≡ false =
        ground (arith, large.2) in
      elim (Bool-cases (is_empty p.definitions)) [
        | inl none_yet ↦ rw (low, none_yet, capacity) (grown-IsPrepared, refl)
        | inr some_slots ↦
            elim (Bool-cases (ltb (length p.definitions / 2) (p.definition_count + 1))) [
              | inl full ↦ rw (low, some_slots, full, capacity) (grown-IsPrepared, refl)
              | inr enough ↦ rw (low, some_slots, enough) (kept_IsPrepared some_slots enough, refl)
            ]
      ]

  module _ (slot : DefineSlot) (used : slot.name ≢ 0)
      (fresh : (i : ℕ) → (get_or p.definitions i vacant).name ≢ slot.name) where
    -- A new name is added to the slots, and nothing else changes.
    pub define_new_lem :
        ((define_new p slot.name slot.replacement).1 ≡ success)
        × IsValid (define_new p slot.name slot.replacement).0
        × ((x : DefineSlot)
            → x.name ≢ 0
            → Has (define_new p slot.name slot.replacement).0.definitions x
              ↔ (Has p.definitions x ⊎ (x ≡ slot)))
        × ((define_new p slot.name slot.replacement).0.definition_count ≡ p.definition_count + 1)
    unfolding define_new succeeded
    define_new_lem =
        let ready = ensure_capacity-IsPrepared in
        let q = (ensure_capacity p 1).0 in
        let inserted =
          position-IsInserted q.definitions ready.0.table slot used (fresh_there ready.0)
            (occupied-HasRoom q.definitions (omega (arith, ready.0.count, ready.0.load))) in
        rw ready.1 (
          refl,
          record {
            shape = inr inserted.table;
            count = omega (arith, inserted.filled, ready.0.count, ready.0.same_count);
            load = omega (arith, inserted.size, ready.0.load, ready.0.same_count);
          },
          λ x h. (
            λ w. from x h ready.0 ((inserted.held x h).0 w),
            λ w. (inserted.held x h).1 (to x h ready.0 w),
          ),
          ap (λ n. n + 1) ready.0.same_count,
        )
      where
        fresh_there :
            IsPrepared p (ensure_capacity p 1).0
            → (i : ℕ) → (get_or (ensure_capacity p 1).0.definitions i vacant).name ≢ slot.name
        fresh_there ready i e =
            let old = (ready.held _ (λ z. used (sym e ∙ z))).0 (i, refl) in
            fresh old.0 (ap name_of old.1 ∙ e)

        from :
            (x : DefineSlot)
            → x.name ≢ 0
            → IsPrepared p (ensure_capacity p 1).0
            → Has (ensure_capacity p 1).0.definitions x ⊎ (x ≡ slot)
            → Has p.definitions x ⊎ (x ≡ slot)
        from x h ready (inl w) = inl ((ready.held x h).0 w)
        from x h ready (inr e) = inr e

        to :
            (x : DefineSlot)
            → x.name ≢ 0
            → IsPrepared p (ensure_capacity p 1).0
            → Has p.definitions x ⊎ (x ≡ slot)
            → Has (ensure_capacity p 1).0.definitions x ⊎ (x ≡ slot)
        to x h ready (inl w) = inl ((ready.held x h).1 w)
        to x h ready (inr e) = inr e
