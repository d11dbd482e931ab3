-- ===== src/Project/StringTable/Searching.antt =====
-- find_hashed of string_table.cpp on a well-formed table.
use server_engine_v.Common.{
  ℕ, zero, suc, ◌+◌, ◌<◌, ◌≡◌, ◌≢◌, ◌⊎◌, refl, sym, ap, ◌∙◌, subst, arith, Bool, true, false, ◌||◌,
  [], ◌==◌, length, get_or, Bool-cases, inl, inr,
}
use server_engine_v.Text.{Text, text_eq, text_eq_refl, text_eq_sound}
use server_engine_v.Project.Probing.{wrap}
use server_engine_v.Project.Probing.Capacity.{wrap-lt, IsPower-pos}
use server_engine_v.Project.Probing.Paths.{Leads, Leads_same, Leads_somewhere, Leads_stops}
use server_engine_v.Project.Probing.Changes.{Leads_kept}
use server_engine_v.Project.Probing.Slots.{IsTable, fits}
use server_engine_v.Project.Probing.Occupancy.{occupied-HasRoom}
use server_engine_v.Project.StringTable.{
  StringTable, vacant, id_of, hash_text, get, matches, find_indexed, find_hashed, baseline_find,
}
use server_engine_v.Project.StringTable.Reading.{IsValid, nth_id, slot_of, hashed}

-- the test of the loop of find_hashed
abbrev pub stops : StringTable → Text → ℕ → ℕ → Bool
stops t value hash i = (get_or t.index i vacant).id == 0 || matches t value hash i

module _ (t : StringTable) (value : Text) where
  -- The loop returns the identity at the slot where its test holds.
  find_indexed-Leads :
      (hash fuel k position end : ℕ)
      → Leads (length t.index) (stops t value hash) k position end
      → k < fuel
      → find_indexed fuel t value hash position ≡ (get_or t.index end vacant).id
  unfolding find_indexed
  find_indexed-Leads hash zero k position end way h = absurd (omega arith)
  find_indexed-Leads hash (suc fuel) zero position end (hit, e) h =
      elim (Bool-cases ((get_or t.index position vacant).id == 0)) [
        | inl gone ↦ rw gone (
            let z : (get_or t.index position vacant).id ≡ 0 = ground arith in
            sym z ∙ ap (λ i. (get_or t.index i vacant).id) e)
        | inr used ↦
            let m : matches t value hash position ≡ true = ground arith in
            rw (used, m) (ap (λ i. (get_or t.index i vacant).id) e)
      ]
  find_indexed-Leads hash (suc fuel) (suc k) position end (miss, rest) h =
      let used : ((get_or t.index position vacant).id == 0) ≡ false = ground arith in
      let m : matches t value hash position ≡ false = ground arith in
      rw (used, m)
        (find_indexed-Leads hash fuel k (wrap (length t.index) (position + 1)) end rest
          (omega arith))

  -- A text that stands in this table, or in the index only under other texts.
  abbrev pub Stands : Type 0
  Stands = (i : ℕ) × (i < length t.records) × (get t (nth_id t i) ≡ value)

  module _ (v : IsValid t) where
    matched :
        (position : ℕ)
        → (get_or t.index position vacant).id ≢ 0
        → matches t value (hash_text value) position ≡ true
        → (i : ℕ) × (i < length t.records)
          × (get t (nth_id t i) ≡ value)
          × ((get_or t.index position vacant).id ≡ nth_id t i)
    matched position used m =
        let slot = (v.held (get_or t.index position vacant) used).0 (position, refl) in
        let same : text_eq (get t (get_or t.index position vacant).id) value ≡ true =
          ground arith in
        (
          slot.0,
          slot.1,
          sym (ap (λ s. get t s.id) slot.2) ∙ text_eq_sound _ value same,
          ap id_of slot.2,
        )

    -- Where the slot of a text is, the test holds; before it, the test holds nowhere.
    stood :
        IsTable vacant id_of (hashed t) t.index
        → (i : ℕ) → i < length t.records
        → get t (nth_id t i) ≡ value
        → (k : ℕ) × (end : ℕ) × Leads
            (length t.index)
            (stops t value (hash_text value))
            k
            (wrap (length t.index) (hash_text value))
            end
          × ((get_or t.index end vacant).id ≡ nth_id t i)
    stood table i low e =
        let place = (v.held (slot_of t i) (λ z. omega arith)).1 (i, low, refl) in
        let id : (get_or t.index place.0 vacant).id ≡ nth_id t i = ap id_of place.1 in
        let way = table.placed place.0 (λ z. let n = sym id ∙ z in absurd (omega arith)) in
        let way' =
          subst
            (λ (k : ℕ).
              Leads (length t.index) (fits vacant id_of t.index k) way.0
                (wrap (length t.index) (hash_text (get t k))) place.0)
            id way.1 in
        let here : stops t value (hash_text value) place.0 ≡ true = at_place place.0 place.1 in
        (
          way.0,
          place.0,
          subst
              (λ (x : Text).
                Leads (length t.index) (stops t value (hash_text value)) way.0
                  (wrap (length t.index) (hash_text x)) place.0)
              e
              (Leads_kept (length t.index) (fits vacant id_of t.index (nth_id t i))
                (stops t value (hash_text value)) keep way.0
                (wrap (length t.index) (hash_text (get t (nth_id t i)))) place.0 here way'),
          id,
        )
      where
        at_place :
            (position : ℕ)
            → get_or t.index position vacant ≡ slot_of t i
            → stops t value (hash_text value) position ≡ true
        at_place position same =
            let h : (get_or t.index position vacant).hash ≡ hash_text value =
              ap (λ s. s.hash) same ∙ ap hash_text e in
            let x : text_eq (get t (get_or t.index position vacant).id) value ≡ true =
              ap (λ s. text_eq (get t s.id) value) same
              ∙ ap (λ w. text_eq w value) e
              ∙ text_eq_refl value in
            ground arith

        keep :
            (position : ℕ)
            → fits vacant id_of t.index (nth_id t i) position ≡ false
            → stops t value (hash_text value) position ≡ false
        keep position miss = elim (Bool-cases (matches t value (hash_text value) position)) [
          | inr other ↦ ground arith
          | inl m ↦
              let used : (get_or t.index position vacant).id ≢ 0 = λ z. ground arith in
              let found = matched position used m in
              let same = v.distinct found.0 i found.1 low (found.2 ∙ sym e) in
              let id : (get_or t.index position vacant).id ≡ nth_id t i =
                found.3 ∙ ap (nth_id t) same in
              absurd (ground arith)
        ]

    -- The loop finds the text if it stands in this table, and 0 otherwise.
    pub index_search :
        IsTable vacant id_of (hashed t) t.index
        → ((i : ℕ) × (i < length t.records)
            × (get t (nth_id t i) ≡ value)
            × (find_indexed
                  (length t.index)
                  t
                  value
                  (hash_text value)
                  (wrap (length t.index) (hash_text value))
                ≡ nth_id t i))
          ⊎ ((find_indexed
                  (length t.index)
                  t
                  value
                  (hash_text value)
                  (wrap (length t.index) (hash_text value))
                ≡ 0)
              × (Stands → ⊥))
    index_search table =
        let room =
          occupied-HasRoom vacant id_of refl t.index
            (ground (arith, v.count, v.load, IsPower-pos (length t.index) table.power)) in
        let begin = wrap (length t.index) (hash_text value) in
        let far =
          Leads_somewhere (length t.index) (stops t value (hash_text value)) table.power room.0
            begin (ground (arith, room.2)) room.1
            (wrap-lt (length t.index) table.power (hash_text value)) in
        let result =
          find_indexed-Leads (hash_text value) (length t.index) far.0 begin far.1 far.2 far.3 in
        by_end far.0 far.1 far.2 result
          (Leads_stops (length t.index) (stops t value (hash_text value)) far.0 begin far.1 far.2)
      where
        by_end :
            (k end : ℕ)
            → Leads
                (length t.index)
                (stops t value (hash_text value))
                k
                (wrap (length t.index) (hash_text value))
                end
            → find_indexed
                (length t.index)
                t
                value
                (hash_text value)
                (wrap (length t.index) (hash_text value))
              ≡ (get_or t.index end vacant).id
            → stops t value (hash_text value) end ≡ true
            → ((i : ℕ) × (i < length t.records)
                × (get t (nth_id t i) ≡ value)
                × (find_indexed
                      (length t.index)
                      t
                      value
                      (hash_text value)
                      (wrap (length t.index) (hash_text value))
                    ≡ nth_id t i))
              ⊎ ((find_indexed
                      (length t.index)
                      t
                      value
                      (hash_text value)
                      (wrap (length t.index) (hash_text value))
                    ≡ 0)
                  × (Stands → ⊥))
        by_end k end way result hit = elim (Bool-cases ((get_or t.index end vacant).id == 0)) [
          | inl gone ↦
              let z : (get_or t.index end vacant).id ≡ 0 = ground arith in
              inr (
                result ∙ z,
                λ (i, low, e).
                    let other = stood table i low e in
                    let same =
                      Leads_same (length t.index) (stops t value (hash_text value)) k other.0
                        (wrap (length t.index) (hash_text value)) end other.1 way other.2 in
                    let n : 0 ≡ nth_id t i =
                      sym z ∙ ap (λ x. (get_or t.index x vacant).id) same.1 ∙ other.3 in
                    absurd (omega arith),
              )
          | inr used ↦
              let found = matched end (λ z. ground arith) (ground arith) in
              inl (found.0, found.1, found.2, result ∙ found.3)
        ]

    -- find_hashed looks here first, and then among the strings of the baseline.
    pub find_hashed_cases :
        ((i : ℕ) × (i < length t.records)
          × (get t (nth_id t i) ≡ value)
          × (find_hashed t value (hash_text value) ≡ nth_id t i))
        ⊎ ((find_hashed t value (hash_text value) ≡ baseline_find t.baseline value) × (Stands → ⊥))
    unfolding find_hashed
    find_hashed_cases = by_shape v.shape
      where
        by_shape :
            ((t.index ≡ []) × (length t.records ≡ 0)) ⊎ IsTable vacant id_of (hashed t) t.index
            → ((i : ℕ) × (i < length t.records)
                × (get t (nth_id t i) ≡ value)
                × (find_hashed t value (hash_text value) ≡ nth_id t i))
              ⊎ ((find_hashed t value (hash_text value) ≡ baseline_find t.baseline value)
                  × (Stands → ⊥))
        by_shape (inl (e, n)) =
            let empty : (length t.index == 0) ≡ true = rw e refl in
            inr (rw empty refl, λ (i, low, _). absurd (omega arith))
        by_shape (inr table) =
            let some_slots : (length t.index == 0) ≡ false =
              ground (arith, IsPower-pos (length t.index) table.power) in
            elim (index_search table) [
              | inl (i, low, e, result) ↦
                  let used : (nth_id t i == 0) ≡ false = ground arith in
                  inl (i, low, e, rw (some_slots, result, used) refl)
              | inr (result, absent) ↦ inr (rw (some_slots, result) refl, absent)
            ]
