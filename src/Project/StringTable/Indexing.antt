-- ===== src/Project/StringTable/Indexing.antt =====
-- The index of string_table.cpp: insert_index, and ensure_index_capacity.
use server_engine_v.Common.{
  ℕ, suc, ◌+◌, ◌-◌, ◌*◌, ◌/◌, ◌≤◌, ◌<◌, ◌≡◌, ◌≢◌, ◌⊎◌, ◌↔◌, refl, sym, ap, ◌∙◌, subst, arith, false,
  not, ◌&&◌, List, [], ◌∷◌, some, ltb, leb, ◌==◌, length, get_elem?, get_or, Bool-cases, inl, inr,
  replicate, length-replicate, get_or-replicate, u64_mod, same_or_apart,
}
use server_engine_v.Status.{success}
use server_engine_v.Project.Probing.{next_capacity}
use server_engine_v.Project.Probing.Capacity.{next_capacity_lem}
use server_engine_v.Project.Probing.Slots.{IsTable, HasRoom}
use server_engine_v.Project.Probing.Occupancy.{occupied, Has, occupied-HasRoom, occupied-replicate}
use server_engine_v.Project.Probing.Insertion.{IsInserted, insert-IsInserted, replicate-IsTable}
use server_engine_v.Project.StringTable.{
  StringRecord, StringSlot, StringTable, vacant, id_of, maximum, u32, hash_text, record_text,
  insert_index, insert_records, ensure_index_capacity,
}
use server_engine_v.Project.StringTable.Reading.{
  IsValid, nth_id, slot_of, hashed, get-local, record_text_lem,
}

abbrev pub string_slot : ℕ → ℕ → StringSlot
string_slot id hash = record { hash = hash; id = id }

pub insert_index-IsInserted :
    (hash_of : ℕ → ℕ) (target : List StringSlot)
    → IsTable vacant id_of hash_of target
    → HasRoom vacant id_of target
    → (id hash : ℕ) → id ≢ 0
    → ((i : ℕ) → (get_or target i vacant).id ≢ id)
    → hash ≡ hash_of id
    → IsInserted vacant id_of hash_of target (string_slot id hash) (insert_index target id hash)
unfolding insert_index
insert_index-IsInserted hash_of target table room id hash used fresh e =
    subst
      (λ (h : ℕ).
        IsInserted vacant id_of hash_of target (string_slot id h) (insert_index target id h))
      (sym e)
      (insert-IsInserted vacant id_of refl hash_of target table (string_slot id (hash_of id)) used
        fresh room)

-- An index of the first strings of the table.
pub record IsIndexOf (t : StringTable) (n : ℕ) (index : List StringSlot) : Type 0 where
  pub table : IsTable vacant id_of (hashed t) index
  pub held :
      (slot : StringSlot)
      → slot.id ≢ 0
      → Has vacant index slot ↔ ((i : ℕ) × (i < n) × (slot ≡ slot_of t i))
  pub count : occupied id_of index ≡ n

module _ (t : StringTable) where
  IsIndexOf-next_own :
      (n : ℕ) (index : List StringSlot)
      → IsIndexOf t n index
      → n < length index
      → IsIndexOf t (suc n) (insert_index index (nth_id t n) (hashed t (nth_id t n)))
        × (length (insert_index index (nth_id t n) (hashed t (nth_id t n))) ≡ length index)
  IsIndexOf-next_own n index x low =
      let one =
        insert_index-IsInserted (hashed t) index x.table
          (occupied-HasRoom vacant id_of refl index (omega (arith, x.count))) (nth_id t n)
          (hashed t (nth_id t n)) (λ z. omega arith) fresh refl in
      (
        record {
          table = one.table;
          held = λ slot used. (
            λ w. from slot ((one.held slot used).0 w) used,
            λ w. (one.held slot used).1 (to slot used w),
          );
          count = omega (arith, one.filled, x.count);
        },
        one.size,
      )
    where
      fresh : (i : ℕ) → (get_or index i vacant).id ≢ nth_id t n
      fresh i e =
          let old = (x.held (get_or index i vacant) (λ z. omega arith)).0 (i, refl) in
          let same : nth_id t n ≡ nth_id t old.0 = sym e ∙ ap id_of old.2 in
          absurd (omega (arith, old.1))

      from :
          (slot : StringSlot)
          → Has vacant index slot ⊎ (slot ≡ slot_of t n)
          → slot.id ≢ 0
          → (i : ℕ) × (i < suc n) × (slot ≡ slot_of t i)
      from slot (inr e) used = (n, omega arith, e)
      from slot (inl w) used =
          let old = (x.held slot used).0 w in (old.0, omega (arith, old.1), old.2)

      to :
          (slot : StringSlot)
          → slot.id ≢ 0
          → (i : ℕ) × (i < suc n) × (slot ≡ slot_of t i)
          → Has vacant index slot ⊎ (slot ≡ slot_of t n)
      to slot used (i, h, e) = elim (same_or_apart i n) [
        | inl same ↦ inr (e ∙ ap (slot_of t) same)
        | inr apart ↦ inl ((x.held slot used).1 (i, omega arith, e))
      ]

  -- One more string in the index.
  pub IsIndexOf-next :
      (n id hash : ℕ) (index : List StringSlot)
      → id ≡ nth_id t n
      → hash ≡ hashed t (nth_id t n)
      → IsIndexOf t n index
      → n < length index
      → IsIndexOf t (suc n) (insert_index index id hash)
        × (length (insert_index index id hash) ≡ length index)
  IsIndexOf-next n id hash index e e' x low = rw (e, e') (IsIndexOf-next_own n index x low)

  -- The loop over the records adds them in order.
  pub insert_records-IsIndexOf :
      (rs : List StringRecord) (n before total : ℕ) (index : List StringSlot)
      → before ≡ t.baseline_string_count + n
      → total ≡ n + length rs
      → ((i : ℕ) (r : StringRecord)
          → get_elem? rs i ≡ some r
          → r.hash ≡ hashed t (nth_id t (n + i)))
      → t.baseline_string_count + total ≤ maximum
      → IsIndexOf t n index
      → total < length index
      → IsIndexOf t total (insert_records index before rs)
        × (length (insert_records index before rs) ≡ length index)
  unfolding insert_records
  insert_records-IsIndexOf [] n before total index start_here all hashes limit x low =
      (subst (λ k. IsIndexOf t k index) (let e : n ≡ total = omega arith in e) x, refl)
  insert_records-IsIndexOf (r ∷ rs) n before total index start_here all hashes limit x low =
      let id : u32 (before + 1) ≡ nth_id t n = omega arith in
      let h : r.hash ≡ hashed t (nth_id t n) =
        hashes 0 r refl ∙ ap (λ k. hashed t (nth_id t k)) (let e : n + 0 ≡ n = omega arith in e) in
      let one = IsIndexOf-next n (u32 (before + 1)) r.hash index id h x (omega arith) in
      let rest =
        insert_records-IsIndexOf rs (suc n) (before + 1) total
          (insert_index index (u32 (before + 1)) r.hash) (omega arith) (omega arith)
          (λ i r' e.
            hashes (suc i) r' e
            ∙ ap (λ k. hashed t (nth_id t k)) (let e : n + suc i ≡ suc n + i = omega arith in e))
          limit one.0 (omega (arith, one.1)) in
      (rest.0, rest.1 ∙ one.1)

  -- the table with the new index of ensure_index_capacity
  reindexed : StringTable
  reindexed = record t {
    index =
        insert_records (replicate (next_capacity (length t.records + 1)) vacant)
          t.baseline_string_count t.records;
  }

  module _ (v : IsValid t) where
    bound : length t.records ≤ maximum
    bound = omega (arith, v.limit)

    -- The index of a table that holds as many strings as it has records.
    pub valid-IsIndexOf :
        IsTable vacant id_of (hashed t) t.index → IsIndexOf t (length t.records) t.index
    valid-IsIndexOf table = record { table = table; held = v.held; count = v.count }

    fresh_index :
        IsIndexOf t (length t.records) reindexed.index
        × ((length t.records + 1) * 2 ≤ length reindexed.index)
    unfolding reindexed
    fresh_index =
        let n = length t.records in
        let capacity = next_capacity (n + 1) in
        let large = next_capacity_lem (n + 1) (omega arith) (omega (arith, bound)) in
        let size : length (replicate capacity vacant) ≡ capacity =
          length-replicate capacity vacant in
        let begin : IsIndexOf t 0 (replicate capacity vacant) = record {
          table = replicate-IsTable vacant id_of (hashed t) refl capacity large.0;
          held = λ slot used. (
            λ (i, e).
                absurd (used (sym (ap id_of e) ∙ ap id_of (get_or-replicate capacity i vacant))),
            λ (i, h, e). elim h [ ],
          );
          count = occupied-replicate vacant id_of refl capacity;
        } in
        let done =
          insert_records-IsIndexOf t.records 0 t.baseline_string_count n (replicate capacity vacant)
            (omega arith) (omega arith) hashes v.limit begin (omega (arith, size, large.1)) in
        (done.0, omega (arith, done.1, size, large.1))
      where
        hashes :
            (i : ℕ) (r : StringRecord)
            → get_elem? t.records i ≡ some r
            → r.hash ≡ hashed t (nth_id t (0 + i))
        hashes i r e =
            let s = v.stored i r e in
            let text = get-local t i ∙ ap (record_text t.bytes) e ∙ record_text_lem t.bytes r s in
            s.hash_kept
            ∙ ap hash_text (sym text)
            ∙ ap (λ k. hashed t (nth_id t k)) (let e : i ≡ 0 + i = omega arith in e)

    -- ensure_index_capacity gives a table of the same strings whose index has room for one more.
    pub ensure_index_capacity_lem :
        (index : List StringSlot) × (ensure_index_capacity t 1
          ≡ (record t { index = index }, success))
        × IsIndexOf t (length t.records) index
        × ((length t.records + 1) * 2 ≤ length index)
    unfolding ensure_index_capacity reindexed
    ensure_index_capacity_lem =
        let n = length t.records in
        let large = next_capacity_lem (n + 1) (omega arith) (omega (arith, bound)) in
        let low : ltb (u64_mod - 1 - n) 1 ≡ false = ground (arith, bound) in
        let capacity : (next_capacity (n + 1) == 0) ≡ false = ground (arith, large.2) in
        elim (Bool-cases (not (length t.index == 0) && leb (n + 1) (length t.index / 2))) [
          | inr full ↦
              (reindexed.index, rw (low, full, capacity) refl, fresh_index.0, fresh_index.1)
          | inl enough ↦ (
            t.index,
            rw (low, enough) refl,
            valid-IsIndexOf (some_table v.shape (ground arith)),
            ground arith,
          )
        ]
      where
        some_table :
            ((t.index ≡ []) × (length t.records ≡ 0)) ⊎ IsTable vacant id_of (hashed t) t.index
            → (length t.index == 0) ≡ false
            → IsTable vacant id_of (hashed t) t.index
        some_table (inr table) h = table
        some_table (inl (e, n)) h =
            absurd (let z : length t.index ≡ 0 = ap length e in ground arith)
