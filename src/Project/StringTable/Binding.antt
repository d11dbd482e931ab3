-- ===== src/Project/StringTable/Binding.antt =====
-- bind_baseline of string_table.cpp.
use server_engine_v.Common.{
  ℕ, ◌≤◌, ◌<◌, ◌≡◌, ◌≢◌, ◌⊎◌, refl, sym, ap, arith, Bool, true, false, not, ◌||◌, ltb, leb, ◌-◌,
  List, [], ◌∷◌, ◌==◌, length, Bool-cases, inl, inr, Option, some, none,
}
use server_engine_v.Status.{success, project_artifact_invalid}
use server_engine_v.Project.StringTable.{
  Baseline, StringTable, StringRecord, StringSlot, vacant, id_of, maximum, is_none, empty_table,
  bind_baseline, get, contains, baseline_contains, baseline_string,
}
use server_engine_v.Project.StringTable.Reading.{IsIndexed, IsValid, IsStored, nth_id}

nil_of : {A : Type 0} (xs : List A) → length xs ≡ 0 → xs ≡ []
nil_of [] h = refl
nil_of (x ∷ xs) h = absurd (omega arith)

-- A table with no string of its own is well formed.
no_strings-IsValid :
    (o : Option Baseline) (count bytes : ℕ)
    → server_engine_v.Project.StringTable.Reading.FitsBaseline o count
    → count ≤ maximum
    → IsValid (record empty_table {
      baseline = o;
      baseline_string_count = count;
      baseline_byte_count = bytes;
    })
no_strings-IsValid o count bytes fits low = record {
  baseline_fits = fits;
  limit = omega (arith, low);
  stored = λ i r e. absurd (cc);
  distinct = λ i j h. elim h [ ];
  apart = λ i h. elim h [ ];
  shape = inl (refl, refl);
  held = λ slot used. (λ (i, e). absurd (used (sym (ap id_of e))), λ (i, h, e). elim h [ ]);
  count = refl;
  load = omega arith;
}

pub empty_table-IsValid : IsValid empty_table
empty_table-IsValid = no_strings-IsValid none 0 0 refl (omega arith)

abbrev pub bound : Baseline → StringTable
bound b = record empty_table {
  baseline = some b;
  baseline_string_count = b.string_count;
  baseline_byte_count = b.string_byte_size;
}

bound_lem :
    (b : Baseline)
    → IsIndexed b
    → b.string_count ≤ maximum
    → IsValid (bound b)
      × ((id : ℕ) → id ≢ 0 → id ≤ b.string_count → get (bound b) id ≡ b.string id)
      × ((id : ℕ) → b.string_count < id → contains (bound b) id ≡ false)
unfolding get contains baseline_string
bound_lem b laws low = (
  no_strings-IsValid (some b) b.string_count b.string_byte_size (refl, laws) low,
  λ id used h.
      let one : (id == 0) ≡ false = ground arith in
      let two : leb id b.string_count ≡ true = ground arith in rw (one, two) refl,
  λ id h.
      let one : (id == 0) ≡ false = ground arith in
      let two : leb id b.string_count ≡ false = ground arith in
      let three : ltb (id - b.string_count - 1) 0 ≡ false = ground arith in
      rw (one, two, three) refl,
)

bound_fields :
    (t : StringTable) (b : Baseline)
    → length t.records ≡ 0
    → length t.bytes ≡ 0
    → length t.index ≡ 0
    → (record t {
      baseline = some b;
      baseline_string_count = b.string_count;
      baseline_byte_count = b.string_byte_size;
    })
      ≡ bound b
bound_fields t b e e' e'' = λ i. record {
  baseline = some b;
  baseline_string_count = b.string_count;
  baseline_byte_count = b.string_byte_size;
  records = nil_of t.records e i;
  bytes = nil_of t.bytes e' i;
  index = nil_of t.index e'' i;
}

-- What bind_baseline asks for: a valid image within 32-bit counts, and a table that is still empty.
pub record IsBindable (t : StringTable) (b : Baseline) : Type 0 where
  pub valid : b.valid ≡ true
  pub free : t.baseline ≡ none
  pub no_records : t.records ≡ []
  pub no_bytes : t.bytes ≡ []
  pub no_index : t.index ≡ []
  pub few_strings : b.string_count ≤ maximum
  pub few_bytes : b.string_byte_size ≤ maximum

is_none_sound : (o : Option Baseline) → is_none o ≡ true → o ≡ none
is_none_sound none h = refl
is_none_sound (some b) h = absurd (let z : false ≡ true = h in cc)

module _ (t : StringTable) (b : Baseline) where
  abbrev guard : Bool
  guard =
      not b.valid
      || not (is_none t.baseline)
      || not (length t.records == 0)
      || not (length t.bytes == 0)
      || not (length t.index == 0)

  abbrev large : Bool
  large = ltb maximum b.string_count || ltb maximum b.string_byte_size

  accepted-IsBindable : guard ≡ false → large ≡ false → IsBindable t b
  accepted-IsBindable g l = record {
    valid = ground arith;
    free = is_none_sound t.baseline (ground arith);
    no_records = nil_of t.records (ground arith);
    no_bytes = nil_of t.bytes (ground arith);
    no_index = nil_of t.index (ground arith);
    few_strings = ground arith;
    few_bytes = ground arith;
  }

  IsBindable-guard : IsBindable t b → guard ≡ false
  IsBindable-guard h =
      let one = h.valid in
      let two : is_none t.baseline ≡ true = ap is_none h.free in
      let three : length t.records ≡ 0 = ap length h.no_records in
      let four : length t.bytes ≡ 0 = ap length h.no_bytes in
      let five : length t.index ≡ 0 = ap length h.no_index in ground arith

  IsBindable-large : IsBindable t b → large ≡ false
  IsBindable-large h = let m = h.few_strings in let n = h.few_bytes in ground arith

-- bind_baseline succeeds if the image is valid and within 32-bit counts and the table has no baseline and no string
-- yet, and then the table is well formed and holds the strings of the baseline alone; in every other case it refuses
-- the image and changes nothing. The baseline finds exactly its own strings.
pub bind_baseline_lem :
    (t : StringTable) (b : Baseline)
    → IsIndexed b
    → (IsBindable t b
        × ((bind_baseline t b).1 ≡ success)
        × IsValid (bind_baseline t b).0
        × ((id : ℕ) → id ≢ 0 → id ≤ b.string_count → get (bind_baseline t b).0 id ≡ b.string id)
        × ((id : ℕ) → b.string_count < id → contains (bind_baseline t b).0 id ≡ false))
      ⊎ ((IsBindable t b → ⊥)
          × ((bind_baseline t b).1 ≡ project_artifact_invalid)
          × ((bind_baseline t b).0 ≡ t))
unfolding bind_baseline
bind_baseline_lem t b laws = elim (Bool-cases (guard t b)) [
  | inl refused ↦
      inr (λ h. let z = IsBindable-guard t b h in ground arith, rw refused refl, rw refused refl)
  | inr accepted ↦ elim (Bool-cases (large t b)) [
    | inl above ↦ inr (
      λ h. let z = IsBindable-large t b h in ground arith,
      rw (accepted, above) refl,
      rw (accepted, above) refl,
    )
    | inr small ↦
        let done = bound_lem b laws (ground arith) in
        let same = bound_fields t b (ground arith) (ground arith) (ground arith) in
        inl (
          accepted-IsBindable t b accepted small,
          rw (accepted, small) refl,
          rw (accepted, small, same) done.0,
          rw (accepted, small, same) done.1,
          rw (accepted, small, same) done.2,
        )
  ]
]
