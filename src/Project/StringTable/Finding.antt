-- ===== src/Project/StringTable/Finding.antt =====
-- find, contains and get of string_table.cpp together.
use server_engine_v.Common.{
  ℕ, zero, suc, ◌-◌, ◌≤◌, ◌<◌, ◌≡◌, ◌≢◌, ◌⊎◌, ◌↔◌, refl, sym, ap, ◌∙◌, subst, arith, true, false,
  [], ◌∷◌, Option, some, none, leb, ◌==◌, length, get_elem?-lt, take, drop, length-drop, Bool-cases,
  inl, inr,
}
use server_engine_v.Text.{Text, text_empty}
use server_engine_v.Project.StringTable.{
  Baseline, StringTable, hash_text, get, contains, find, find_hashed, baseline_find,
  baseline_string, baseline_contains, record_text,
}
use server_engine_v.Project.StringTable.Reading.{
  IsIndexed, FitsBaseline, IsValid, nth_id, get-local, get-baseline, record_text_lem,
}
use server_engine_v.Project.StringTable.Searching.{find_hashed_cases}

baseline_contains-some :
    (o : Option Baseline) (id : ℕ)
    → baseline_contains o id ≡ true
    → (b : Baseline) × (o ≡ some b) × (text_empty (b.string id) ≡ false)
unfolding baseline_contains
baseline_contains-some none id h = cc
baseline_contains-some (some b) id h = (b, refl, ground arith)

baseline_find-some :
    (o : Option Baseline) (value : Text)
    → baseline_find o value ≢ 0
    → (b : Baseline) × (o ≡ some b) × (b.find_string value ≡ baseline_find o value)
unfolding baseline_find
baseline_find-some none value h = absurd (h refl)
baseline_find-some (some b) value h = (b, refl, refl)

fits_some :
    (o : Option Baseline) (b : Baseline) (count : ℕ)
    → o ≡ some b
    → FitsBaseline o count
    → (count ≡ b.string_count) × IsIndexed b
fits_some o b count e f = subst (λ x. FitsBaseline x count) e f

some_text : (n : ℕ) (xs : Text) → 0 < n → n ≤ length xs → text_empty (take n xs) ≡ false
unfolding text_empty
some_text zero xs h low = elim h [ ]
some_text (suc n) [] h low = elim low [ ]
some_text (suc n) (x ∷ xs) h low = refl

module _ (t : StringTable) where
  pub contains-nth : (i : ℕ) → i < length t.records → contains t (nth_id t i) ≡ true
  unfolding contains
  contains-nth i low = ground arith

  pub contains-baseline :
      (b : Baseline) (id : ℕ)
      → t.baseline ≡ some b
      → id ≢ 0
      → id ≤ t.baseline_string_count
      → text_empty (b.string id) ≡ false
      → contains t id ≡ true
  unfolding contains baseline_contains
  contains-baseline b id e used low full =
      let one : (id == 0) ≡ false = ground arith in
      let two : leb id t.baseline_string_count ≡ true = ground arith in rw (one, two, e, full) refl

module _ (t : StringTable) (v : IsValid t) where
  -- An identity of the table belongs to the baseline or to this table.
  pub contains_cases :
      (id : ℕ)
      → contains t id ≡ true
      → ((b : Baseline) × (t.baseline ≡ some b)
          × (id ≢ 0)
          × (id ≤ t.baseline_string_count)
          × (text_empty (b.string id) ≡ false))
        ⊎ ((i : ℕ) × (i < length t.records) × (id ≡ nth_id t i))
  unfolding contains
  contains_cases id h = elim (Bool-cases (leb id t.baseline_string_count)) [
    | inl low ↦
        let one = baseline_contains-some t.baseline id (ground arith) in
        inl (one.0, one.1, (λ z. ground arith), ground arith, one.2)
    | inr high ↦ let i = id - t.baseline_string_count - 1 in inr (i, ground arith, ground arith)
  ]

  pub nth-some_text : (i : ℕ) → i < length t.records → text_empty (get t (nth_id t i)) ≡ false
  nth-some_text i low =
      let r = get_elem?-lt t.records i low in
      let s = v.stored i r.0 r.1 in
      let e = get-local t i ∙ ap (record_text t.bytes) r.1 ∙ record_text_lem t.bytes r.0 s in
      rw e (
        some_text r.0.text_length (drop r.0.offset t.bytes) s.positive
          (omega (arith, s.inside, length-drop r.0.offset t.bytes)))

  baseline_get :
      (b : Baseline) (id : ℕ)
      → t.baseline ≡ some b
      → id ≢ 0
      → id ≤ t.baseline_string_count
      → get t id ≡ b.string id
  unfolding baseline_string
  baseline_get b id e used low = get-baseline t id used low ∙ ap (λ o. baseline_string o id) e

  -- What find returns has the text that was looked for.
  pub find-get :
      (value : Text)
      → find t value ≢ 0
      → (contains t (find t value) ≡ true) × (get t (find t value) ≡ value)
  unfolding find
  find-get value h = elim (Bool-cases (text_empty value)) [
    | inl empty ↦ absurd (h (rw empty refl))
    | inr full ↦ elim (find_hashed_cases t value v) [
      | inl (i, low, e, result) ↦ rw (full, result) (contains-nth t i low, e)
      | inr (result, absent) ↦
          let found = baseline_find-some t.baseline value (λ z. h (rw full (result ∙ z))) in
          let laws = fits_some t.baseline found.0 t.baseline_string_count found.1 v.baseline_fits in
          let used : found.0.find_string value ≢ 0 = λ z. h (rw full (result ∙ sym found.2 ∙ z)) in
          let s = laws.1.sound value used in
          let low : found.0.find_string value ≤ t.baseline_string_count =
            omega (arith, s.0, laws.0) in
          let e : find_hashed t value (hash_text value) ≡ found.0.find_string value =
            result ∙ sym found.2 in
          rw (full, e)
            (
              contains-baseline t found.0 (found.0.find_string value) found.1 used low
                  (rw s.1 full),
              baseline_get found.0 (found.0.find_string value) found.1 used low ∙ s.1,
            )
    ]
  ]

  baseline_finds :
      (b : Baseline) (id : ℕ)
      → t.baseline ≡ some b
      → id ≢ 0
      → id ≤ t.baseline_string_count
      → text_empty (b.string id) ≡ false
      → baseline_find t.baseline (b.string id) ≡ id
  unfolding baseline_find
  baseline_finds b id e used low full =
      let laws = fits_some t.baseline b t.baseline_string_count e v.baseline_fits in
      ap (λ o. baseline_find o (b.string id)) e
      ∙ laws.1.complete id used (omega (arith, laws.0)) full

  local_find : (i : ℕ) → i < length t.records → find t (get t (nth_id t i)) ≡ nth_id t i
  unfolding find
  local_find i low =
      let full = nth-some_text i low in
      elim (find_hashed_cases t (get t (nth_id t i)) v) [
        | inl (j, low', e, result) ↦ rw full (result ∙ ap (nth_id t) (v.distinct j i low' low e))
        | inr (result, absent) ↦ absurd (absent (i, low, refl))
      ]

  -- Every identity of the table is found under its text.
  pub get-find : (id : ℕ) → contains t id ≡ true → find t (get t id) ≡ id
  unfolding find
  get-find id h = elim (contains_cases id h) [
    | inr (i, low, e) ↦ subst (λ x. find t (get t x) ≡ x) (sym e) (local_find i low)
    | inl (b, e, used, low, full) ↦
        rw (baseline_get b id e used low, full)
          (elim (find_hashed_cases t (b.string id) v) [
            | inl (i, low', e', result) ↦
                let z : baseline_find t.baseline (b.string id) ≡ 0 =
                  sym (ap (baseline_find t.baseline) e') ∙ v.apart i low' in
                absurd (used (sym (baseline_finds b id e used low full) ∙ z))
            | inr (result, absent) ↦ result ∙ baseline_finds b id e used low full
          ])
  ]

  -- find returns an identity exactly if it belongs to the table and stands for the text.
  pub find_iff :
      (value : Text) (id : ℕ)
      → id ≢ 0
      → (find t value ≡ id) ↔ ((contains t id ≡ true) × (get t id ≡ value))
  find_iff value id used = (from, to)
    where
      from : find t value ≡ id → (contains t id ≡ true) × (get t id ≡ value)
      from e =
          subst (λ k. (contains t k ≡ true) × (get t k ≡ value)) e
            (find-get value (λ z. used (sym e ∙ z)))

      to : (contains t id ≡ true) × (get t id ≡ value) → find t value ≡ id
      to (h, e) = sym (ap (find t) e) ∙ get-find id h
