-- ===== src/Project/StringTable/Interning.antt =====
-- intern of string_table.cpp, and sequences of its calls.
use server_engine_v.Common.{
  ℕ, ◌+◌, ◌*◌, ◌≤◌, ◌<◌, ◌≡◌, ◌⊎◌, refl, sym, ap, ◌∙◌, subst, arith, true, false, List, ◌==◌,
  length, Bool-cases, inl, inr,
}
use server_engine_v.Status.{
  ServerStatus, success, project_configuration_invalid, io_error, succeeded,
}
use server_engine_v.Text.{Text, text_empty}
use server_engine_v.Project.StringTable.{
  StringTable, StringSlot, hash_text, get, contains, find, find_hashed, baseline_find, too_large,
  intern_new, intern,
}
use server_engine_v.Project.StringTable.Reading.{IsValid, nth_id}
use server_engine_v.Project.StringTable.Searching.{find_hashed_cases, Stands}
use server_engine_v.Project.StringTable.Finding.{find-get, get-find, contains-nth}
use server_engine_v.Project.StringTable.Indexing.{IsIndexOf, ensure_index_capacity_lem}
use server_engine_v.Project.StringTable.Appending.{
  appended, append_text_lem, appended-IsValid, length-appended, contained_kept, get_new,
}

-- what intern returned, and why
abbrev pub Outcome : StringTable → Text → StringTable → ℕ → ServerStatus → Type 0
Outcome t value after id status =
    ((status ≡ success)
      × (text_empty value ≡ false)
      × (contains after id ≡ true)
      × (get after id ≡ value)
      × (find after value ≡ id))
    ⊎ (((status ≡ project_configuration_invalid) × (id ≡ 0) × (text_empty value ≡ true))
        ⊎ ((status ≡ io_error)
            × (id ≡ 0)
            × (text_empty value ≡ false)
            × (find t value ≡ 0)
            × (too_large t value ≡ true)))

-- What intern does to a table: its strings stay, and the outcome says what it returned and why.
pub record IsInterned (t : StringTable) (value : Text) (after : StringTable) (id : ℕ)
    (status : ServerStatus) : Type 0 where
  pub valid : IsValid after
  pub kept :
      (old : ℕ) → contains t old ≡ true → (contains after old ≡ true) × (get after old ≡ get t old)
  pub outcome : Outcome t value after id status

same_limits :
    (t : StringTable) (index : List StringSlot) (value : Text)
    → too_large (record t { index = index }) value ≡ too_large t value
unfolding too_large
same_limits t index value = refl

module _ (t : StringTable) (v : IsValid t) (value : Text) where
  find_full : text_empty value ≡ false → find t value ≡ find_hashed t value (hash_text value)
  unfolding find
  find_full full = rw full refl

  -- A new index leaves the table well formed, and every string where it was.
  reindexed-IsValid :
      (index : List StringSlot)
      → IsIndexOf t (length t.records) index
      → (length t.records + 1) * 2 ≤ length index
      → IsValid (record t { index = index })
  unfolding get
  reindexed-IsValid index x room = record {
    baseline_fits = v.baseline_fits;
    limit = v.limit;
    stored = v.stored;
    distinct = v.distinct;
    apart = v.apart;
    shape = inr x.table;
    held = x.held;
    count = x.count;
    load = omega arith;
  }

  reindexed_kept :
      (index : List StringSlot) (old : ℕ)
      → contains t old ≡ true
      → (contains (record t { index = index }) old ≡ true)
        × (get (record t { index = index }) old ≡ get t old)
  unfolding get contains
  reindexed_kept index old h = (h, refl)

  module _ (full : text_empty value ≡ false) (absent : Stands t value → ⊥)
      (unknown : baseline_find t.baseline value ≡ 0) where
    new_outcome :
        (index : List StringSlot)
        → IsIndexOf t (length t.records) index
        → (length t.records + 1) * 2 ≤ length index
        → too_large t value ≡ false
        → IsInterned t value (appended t index value) (nth_id t (length t.records)) success
    new_outcome index x room fitting =
        let one = append_text_lem t index value fitting in
        let valid = appended-IsValid t index value v full absent unknown one.1 x room in
        let read = get_new t index value v full in
        let has =
          contains-nth (appended t index value) (length t.records)
            (omega (arith, length-appended t index value)) in
        record {
          valid = valid;
          kept = contained_kept t index value v;
          outcome = inl (
            refl,
            full,
            has,
            read,
            sym (ap (find (appended t index value)) read)
                ∙ get-find (appended t index value) valid (nth_id t (length t.records)) has,
          );
        }

    intern_new-IsInterned :
        find t value ≡ 0
        → IsInterned t value
            (intern_new t value (hash_text value)).0
            (intern_new t value (hash_text value)).1
            (intern_new t value (hash_text value)).2
    unfolding intern_new succeeded
    intern_new-IsInterned missing =
        let ready = ensure_index_capacity_lem t v in
        let large : too_large (record t { index = ready.0 }) value ≡ too_large t value =
          same_limits t ready.0 value in
        elim (Bool-cases (too_large t value)) [
          | inl over ↦
              rw (ready.1, large, over)
                record {
                  valid = reindexed-IsValid ready.0 ready.2 ready.3;
                  kept = reindexed_kept ready.0;
                  outcome = inr (inr (refl, refl, full, missing, over));
                }
          | inr fitting ↦
              rw (ready.1, large, fitting, (append_text_lem t ready.0 value fitting).0)
                (new_outcome ready.0 ready.2 ready.3 fitting)
        ]

  -- intern refuses the empty text, finds a text that is known, and adds any other unless the 32-bit limits
  -- are reached; in each case the known texts keep their identities.
  pub intern-IsInterned :
      IsInterned t value (intern t value).0 (intern t value).1 (intern t value).2
  unfolding intern
  intern-IsInterned = elim (Bool-cases (text_empty value)) [
    | inl empty ↦
        rw empty
          record { valid = v; kept = λ old h. (h, refl); outcome = inr (inl (refl, refl, empty)) }
    | inr full ↦ elim (Bool-cases (find_hashed t value (hash_text value) == 0)) [
      | inr known ↦
          let e = find_full full in
          let found = find-get t v value (λ z. let n = sym e ∙ z in ground arith) in
          rw (full, known)
            record {
              valid = v;
              kept = λ old h. (h, refl);
              outcome = inl (
                refl,
                full,
                subst (λ k. contains t k ≡ true) e found.0,
                subst (λ k. get t k ≡ value) e found.1,
                e,
              );
            }
      | inl missing ↦
          let z : find_hashed t value (hash_text value) ≡ 0 = ground arith in
          rw (full, missing) (by_search full z (find_hashed_cases t value v))
    ]
  ]
    where
      by_search :
          text_empty value ≡ false
          → find_hashed t value (hash_text value) ≡ 0
          → ((i : ℕ) × (i < length t.records)
              × (get t (nth_id t i) ≡ value)
              × (find_hashed t value (hash_text value) ≡ nth_id t i))
            ⊎ ((find_hashed t value (hash_text value) ≡ baseline_find t.baseline value)
                × (Stands t value → ⊥))
          → IsInterned t value
              (intern_new t value (hash_text value)).0
              (intern_new t value (hash_text value)).1
              (intern_new t value (hash_text value)).2
      by_search full z (inl (i, low, e, result)) = absurd (omega arith)
      by_search full z (inr (result, absent)) =
          intern_new-IsInterned full absent (sym result ∙ z) (find_full full ∙ z)
