-- ===== src/Project/StringTable/Reading.antt =====
-- The spellings that string_table.cpp hands out, and when a table is well formed.
use server_engine_v.Common.{
  ℕ, ◌+◌, ◌-◌, ◌*◌, ◌≤◌, ◌<◌, ◌≡◌, ◌≢◌, ◌⊎◌, ◌↔◌, refl, arith, true, false, [], Option, some, none,
  ltb, leb, ◌==◌, length, get_elem?, take, drop,
}
use server_engine_v.Text.{Text, text_empty}
use server_engine_v.Project.Probing.Slots.{IsTable}
use server_engine_v.Project.Probing.Occupancy.{occupied, Has}
use server_engine_v.Project.StringTable.{
  Baseline, StringRecord, StringSlot, StringTable, vacant, id_of, maximum, hash_text, get,
  record_text, baseline_string, baseline_find,
}

-- What a compiled Project has been checked for: a string is found at its number, and nothing else is.
pub record IsIndexed (b : Baseline) : Type 0 where
  pub sound :
      (v : Text)
      → b.find_string v ≢ 0
      → (b.find_string v ≤ b.string_count) × (b.string (b.find_string v) ≡ v)
  pub complete :
      (id : ℕ)
      → id ≢ 0
      → id ≤ b.string_count
      → text_empty (b.string id) ≡ false
      → b.find_string (b.string id) ≡ id

abbrev pub FitsBaseline : Option Baseline → ℕ → Type 0
FitsBaseline none count = count ≡ 0
FitsBaseline (some b) count = (count ≡ b.string_count) × IsIndexed b

-- the identities of the strings of this table, from 0 on
abbrev pub nth_id : StringTable → ℕ → ℕ
nth_id t i = t.baseline_string_count + i + 1

abbrev pub hashed : StringTable → ℕ → ℕ
hashed t id = hash_text (get t id)

abbrev pub slot_of : StringTable → ℕ → StringSlot
slot_of t i = record { hash = hashed t (nth_id t i); id = nth_id t i }

pub record IsStored (bytes : Text) (r : StringRecord) : Type 0 where
  pub inside : r.offset + r.text_length ≤ length bytes
  pub positive : 0 < r.text_length
  pub hash_kept : r.hash ≡ hash_text (take r.text_length (drop r.offset bytes))

pub record IsValid (t : StringTable) : Type 0 where
  pub baseline_fits : FitsBaseline t.baseline t.baseline_string_count
  pub limit : t.baseline_string_count + length t.records ≤ maximum
  pub stored : (i : ℕ) (r : StringRecord) → get_elem? t.records i ≡ some r → IsStored t.bytes r
  pub distinct :
      (i j : ℕ)
      → i < length t.records
      → j < length t.records
      → get t (nth_id t i) ≡ get t (nth_id t j)
      → i ≡ j
  pub apart : (i : ℕ) → i < length t.records → baseline_find t.baseline (get t (nth_id t i)) ≡ 0
  pub shape : ((t.index ≡ []) × (length t.records ≡ 0)) ⊎ IsTable vacant id_of (hashed t) t.index
  pub held :
      (slot : StringSlot)
      → slot.id ≢ 0
      → Has vacant t.index slot ↔ ((i : ℕ) × (i < length t.records) × (slot ≡ slot_of t i))
  pub count : occupied id_of t.index ≡ length t.records
  pub load : length t.records * 2 ≤ length t.index

module _ (t : StringTable) where
  pub get-local : (i : ℕ) → get t (nth_id t i) ≡ record_text t.bytes (get_elem? t.records i)
  unfolding get
  get-local i =
      let one : (nth_id t i == 0) ≡ false = ground arith in
      let two : leb (nth_id t i) t.baseline_string_count ≡ false = ground arith in
      let three : nth_id t i - t.baseline_string_count - 1 ≡ i = omega arith in
      rw (one, two, three) refl

  pub get-baseline :
      (id : ℕ) → id ≢ 0 → id ≤ t.baseline_string_count → get t id ≡ baseline_string t.baseline id
  unfolding get
  get-baseline id used low =
      let one : (id == 0) ≡ false = ground arith in
      let two : leb id t.baseline_string_count ≡ true = ground arith in rw (one, two) refl

pub record_text_lem :
    (bytes : Text) (r : StringRecord)
    → IsStored bytes r
    → record_text bytes (some r) ≡ take r.text_length (drop r.offset bytes)
unfolding record_text
record_text_lem bytes r s =
    let one : ltb (length bytes) r.offset ≡ false = ground (arith, s.inside) in
    let two : ltb (length bytes - r.offset) r.text_length ≡ false = ground (arith, s.inside) in
    rw (one, two) refl
