-- ===== src/Project/StringTable/Appending.antt =====
-- append_text of string_table.cpp: the table with one more string.
use server_engine_v.Common.{
  ℕ, suc, ◌+◌, ◌*◌, ◌≤◌, ◌<◌, ◌≡◌, ◌≢◌, ◌⊎◌, ◌↔◌, refl, sym, ap, ◌∙◌, subst, arith, true, false,
  List, [], ◌∷◌, ◌++◌, some, length, get_elem?, get_or, take, drop, inl, inr, length-append,
  take-drop-append, take-length, drop-length, get_elem?-append, get_elem?-append_last,
  get_elem?-some, get_elem?-lt, same_or_apart,
}
use mathlib.Core.List.{append-nil}
use server_engine_v.Text.{Text, text_empty}
use server_engine_v.Project.Probing.Occupancy.{Has}
use server_engine_v.Project.StringTable.{
  StringRecord, StringSlot, StringTable, vacant, id_of, maximum, u32, hash_text, get, contains,
  record_text, baseline_find, insert_index, append_text, too_large,
}
use server_engine_v.Project.StringTable.Reading.{
  IsValid, IsStored, nth_id, slot_of, hashed, get-local, get-baseline, record_text_lem,
}
use server_engine_v.Project.StringTable.Finding.{contains_cases, contains-nth, contains-baseline}
use server_engine_v.Project.StringTable.Searching.{Stands}
use server_engine_v.Project.StringTable.Indexing.{IsIndexOf, IsIndexOf-next, string_slot}

-- The same strings under the same identities give the same index.
IsIndexOf-kept :
    (t t' : StringTable) (n : ℕ) (index : List StringSlot)
    → t'.baseline_string_count ≡ t.baseline_string_count
    → ((i : ℕ) → i < n → get t' (nth_id t i) ≡ get t (nth_id t i))
    → IsIndexOf t n index
    → IsIndexOf t' n index
IsIndexOf-kept t t' n index base same x = record {
  table = record {
    power = x.table.power;
    placed = λ i used.
        let j = (x.held (get_or index i vacant) used).0 (i, refl) in
        let id : (get_or index i vacant).id ≡ nth_id t j.0 = ap id_of j.2 in
        let h : hashed t' (get_or index i vacant).id ≡ hashed t (get_or index i vacant).id =
          ap (hashed t') id ∙ ap hash_text (same j.0 j.1) ∙ ap (hashed t) (sym id) in
        rw h (x.table.placed i used);
  };
  held = λ slot used. (
    λ w. let j = (x.held slot used).0 w in (j.0, j.1, j.2 ∙ sym (slots j.0 j.1)),
    λ (i, low, e). (x.held slot used).1 (i, low, e ∙ slots i low),
  );
  count = x.count;
}
  where
    slots : (i : ℕ) → i < n → slot_of t' i ≡ slot_of t i
    slots i low =
        ap (λ b. string_slot (b + i + 1) (hash_text (get t' (b + i + 1)))) base
        ∙ ap (λ w. string_slot (nth_id t i) (hash_text w)) (same i low)

some_length : (w : Text) → text_empty w ≡ false → 0 < length w
unfolding text_empty
some_length [] h = cc
some_length (c ∷ cs) h = omega arith

abbrev pub new_record : StringTable → Text → StringRecord
new_record t value = record {
  offset = length t.bytes;
  text_length = length value;
  hash = hash_text value;
}

-- the table with the string, over an index with room for it
abbrev pub appended : StringTable → List StringSlot → Text → StringTable
appended t index value = record t {
  bytes = t.bytes ++ value;
  records = t.records ++ new_record t value ∷ [];
  index = insert_index index (nth_id t (length t.records)) (hash_text value);
}

module _ (t : StringTable) (index : List StringSlot) (value : Text) where
  pub length-appended : length (appended t index value).records ≡ length t.records + 1
  length-appended = omega (arith, length-append t.records (new_record t value ∷ []))

  length-bytes : length (appended t index value).bytes ≡ length t.bytes + length value
  length-bytes = length-append t.bytes value

  pub append_text_lem :
      too_large t value ≡ false
      → (append_text (record t { index = index }) value (hash_text value)
          ≡ (appended t index value, nth_id t (length t.records)))
        × (t.baseline_string_count + (length t.records + 1) ≤ maximum)
  unfolding append_text too_large
  append_text_lem fitting =
      let offset : u32 (length t.bytes) ≡ length t.bytes = ground arith in
      let size : u32 (length value) ≡ length value = ground arith in
      let low : t.baseline_string_count + (length t.records + 1) ≤ maximum = ground arith in
      let id : u32 (t.baseline_string_count + (length t.records + 1))
          ≡ nth_id t (length t.records) =
        omega (arith, low) in
      (rw (offset, size, id) refl, low)

  old_record :
      (i : ℕ)
      → i < length t.records
      → get_elem? (appended t index value).records i ≡ get_elem? t.records i
  old_record i low = get_elem?-append t.records (new_record t value ∷ []) i low

  -- What the arena held stays where it is.
  IsStored-append :
      (r : StringRecord)
      → IsStored t.bytes r
      → IsStored (t.bytes ++ value) r
        × (record_text (t.bytes ++ value) (some r) ≡ record_text t.bytes (some r))
  IsStored-append r s =
      let same = take-drop-append r.offset r.text_length t.bytes value s.inside in
      let s' : IsStored (t.bytes ++ value) r = record {
        inside = omega (arith, s.inside, length-bytes);
        positive = s.positive;
        hash_kept = s.hash_kept ∙ ap hash_text (sym same);
      } in
      (s', record_text_lem (t.bytes ++ value) r s' ∙ same ∙ sym (record_text_lem t.bytes r s))

  new_IsStored :
      text_empty value ≡ false
      → IsStored (t.bytes ++ value) (new_record t value)
        × (record_text (t.bytes ++ value) (some (new_record t value)) ≡ value)
  new_IsStored full =
      let read : take (length value) (drop (length t.bytes) (t.bytes ++ value)) ≡ value =
        ap (take (length value)) (drop-length t.bytes value ∙ sym (append-nil value))
        ∙ take-length value [] in
      let s : IsStored (t.bytes ++ value) (new_record t value) = record {
        inside = omega (arith, length-bytes);
        positive = some_length value full;
        hash_kept = ap hash_text (sym read);
      } in
      (s, record_text_lem (t.bytes ++ value) (new_record t value) s ∙ read)

  module _ (v : IsValid t) where
    pub get_old :
        (i : ℕ)
        → i < length t.records
        → get (appended t index value) (nth_id t i) ≡ get t (nth_id t i)
    get_old i low =
        let r = get_elem?-lt t.records i low in
        get-local (appended t index value) i
        ∙ ap (record_text (t.bytes ++ value)) (old_record i low ∙ r.1)
        ∙ (IsStored-append r.0 (v.stored i r.0 r.1)).1
        ∙ ap (record_text t.bytes) (sym r.1)
        ∙ sym (get-local t i)

    pub get_new :
        text_empty value ≡ false
        → get (appended t index value) (nth_id t (length t.records)) ≡ value
    get_new full =
        get-local (appended t index value) (length t.records)
        ∙ ap (record_text (t.bytes ++ value)) (get_elem?-append_last t.records (new_record t value))
        ∙ (new_IsStored full).1

    -- Every identity of the table keeps its text.
    pub contained_kept :
        (id : ℕ)
        → contains t id ≡ true
        → (contains (appended t index value) id ≡ true)
          × (get (appended t index value) id ≡ get t id)
    contained_kept id h = elim (contains_cases t v id h) [
      | inr (i, low, e) ↦ (
        subst (λ k. contains (appended t index value) k ≡ true) (sym e)
            (contains-nth (appended t index value) i (omega (arith, length-appended))),
        subst (λ k. get (appended t index value) k ≡ get t k) (sym e) (get_old i low),
      )
      | inl (b, e, used, low, full) ↦ (
        contains-baseline (appended t index value) b id e used low full,
        get-baseline (appended t index value) id used low ∙ sym (get-baseline t id used low),
      )
    ]

    module _ (full : text_empty value ≡ false) (absent : Stands t value → ⊥)
        (unknown : baseline_find t.baseline value ≡ 0)
        (limit : t.baseline_string_count + (length t.records + 1) ≤ maximum)
        (x : IsIndexOf t (length t.records) index)
        (room : (length t.records + 1) * 2 ≤ length index) where
      old_or_new :
          (i : ℕ)
          → i < length (appended t index value).records
          → (i < length t.records) ⊎ (i ≡ length t.records)
      old_or_new i low = elim (same_or_apart i (length t.records)) [
        | inl e ↦ inr e
        | inr apart ↦ inl (omega (arith, length-appended))
      ]

      all_stored :
          (i : ℕ) (r : StringRecord)
          → get_elem? (appended t index value).records i ≡ some r
          → IsStored (t.bytes ++ value) r
      all_stored i r e = elim (old_or_new i (get_elem?-some (appended t index value).records i e)) [
        | inl low ↦ (IsStored-append r (v.stored i r (sym (old_record i low) ∙ e))).0
        | inr last ↦
            let same : some r ≡ some (new_record t value) =
              sym e
              ∙ ap (get_elem? (appended t index value).records) last
              ∙ get_elem?-append_last t.records (new_record t value) in
            let r_new : r ≡ new_record t value = cc in
            subst (IsStored (t.bytes ++ value)) (sym r_new) (new_IsStored full).0
      ]

      -- No old string has the new text.
      others_differ :
          (i : ℕ) → i < length t.records → get (appended t index value) (nth_id t i) ≢ value
      others_differ i low e = absent (i, low, sym (get_old i low) ∙ e)

      get_last : (i : ℕ) → i ≡ length t.records → get (appended t index value) (nth_id t i) ≡ value
      get_last i e = ap (λ k. get (appended t index value) (nth_id t k)) e ∙ get_new full

      all_distinct :
          (i j : ℕ)
          → i < length (appended t index value).records
          → j < length (appended t index value).records
          → get (appended t index value) (nth_id t i) ≡ get (appended t index value) (nth_id t j)
          → i ≡ j
      all_distinct i j low low' e = elim (old_or_new i low) [
        | inl old ↦ elim (old_or_new j low') [
          | inl old' ↦ v.distinct i j old old' (sym (get_old i old) ∙ e ∙ get_old j old')
          | inr last' ↦ absurd (others_differ i old (e ∙ get_last j last'))
        ]
        | inr last ↦ elim (old_or_new j low') [
          | inl old' ↦ absurd (others_differ j old' (sym e ∙ get_last i last))
          | inr last' ↦ last ∙ sym last'
        ]
      ]

      all_apart :
          (i : ℕ)
          → i < length (appended t index value).records
          → baseline_find t.baseline (get (appended t index value) (nth_id t i)) ≡ 0
      all_apart i low = elim (old_or_new i low) [
        | inl old ↦ ap (baseline_find t.baseline) (get_old i old) ∙ v.apart i old
        | inr last ↦ ap (baseline_find t.baseline) (get_last i last) ∙ unknown
      ]

      pub appended-IsValid : IsValid (appended t index value)
      appended-IsValid =
          let h : hash_text value ≡ hashed (appended t index value) (nth_id t (length t.records)) =
            ap hash_text (sym (get_new full)) in
          let next =
            IsIndexOf-next (appended t index value) (length t.records) (nth_id t (length t.records))
              (hash_text value) index refl h
              (IsIndexOf-kept t (appended t index value) (length t.records) index refl get_old x)
              (omega (arith, room)) in
          let n : length (appended t index value).records ≡ suc (length t.records) =
            omega (arith, length-appended) in
          record {
            baseline_fits = v.baseline_fits;
            limit = omega (arith, limit, length-appended);
            stored = all_stored;
            distinct = all_distinct;
            apart = all_apart;
            shape = inr next.0.table;
            held =
                subst
                  (λ k.
                    (slot : StringSlot)
                    → slot.id ≢ 0
                    → Has vacant (appended t index value).index slot
                      ↔ ((i : ℕ) × (i < k) × (slot ≡ slot_of (appended t index value) i)))
                  (sym n) next.0.held;
            count = next.0.count ∙ sym n;
            load = omega (arith, next.1, room, length-appended);
          }
