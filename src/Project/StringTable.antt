-- ===== src/Project/StringTable.antt =====
-- project/string/string_table.{hpp,cpp}: interned spellings, over the strings of a compiled Project
-- that stay in their mapping. A string_id is its number, 0 when invalid; compiled_project_view is the
-- record Baseline. Running out of memory is left out, and so is the copy of a text that lies in the
-- arena itself: a text is a value here.
pub mod Reading
pub mod Searching
pub mod Finding
pub mod Indexing
pub mod Appending
pub mod Interning
pub mod Sequences
pub mod Binding
use Prim.Native.Nat.{bit_xor}
use server_engine_v.Common.{
  ℕ, zero, suc, ◌+◌, ◌-◌, ◌*◌, ◌/◌, ◌%◌, ◌^◌, Bool, true, false, not, ◌&&◌, ◌||◌, List, [], ◌∷◌,
  ◌++◌, Option, some, none, ltb, leb, ◌==◌, if◌then◌else◌, length, get_elem?, get_or, set, take,
  drop, replicate, mul32, u64_mod,
}
use server_engine_v.Text.{Text, text_empty, text_eq}
use server_engine_v.Status.{
  ServerStatus, success, project_configuration_invalid, project_artifact_invalid, io_error,
  succeeded,
}
use server_engine_v.Project.Probing.{next_capacity, wrap, probe}

-- what the table uses of a compiled_project_view
pub record Baseline : Type 0 where
  pub valid : Bool
  pub string_count : ℕ
  pub string_byte_size : ℕ
  pub string : ℕ → Text
  pub find_string : Text → ℕ

pub record StringRecord : Type 0 where
  pub offset : ℕ
  pub text_length : ℕ
  pub hash : ℕ

pub record StringSlot : Type 0 where
  pub hash : ℕ
  pub id : ℕ

pub record StringTable : Type 0 where
  pub baseline : Option Baseline
  pub baseline_string_count : ℕ
  pub baseline_byte_count : ℕ
  pub records : List StringRecord
  pub bytes : Text
  pub index : List StringSlot

abbrev pub empty_table : StringTable
empty_table = record {
  baseline = none;
  baseline_string_count = 0;
  baseline_byte_count = 0;
  records = [];
  bytes = [];
  index = [];
}

abbrev pub vacant : StringSlot
vacant = record { hash = 0; id = 0 }

abbrev pub id_of : StringSlot → ℕ
id_of slot = slot.id

abbrev pub maximum : ℕ
maximum = 0xffff_ffff

abbrev pub u32 : ℕ → ℕ
u32 n = n % 2 ^ 32

abbrev pub is_none : Option Baseline → Bool
is_none none = true
is_none (some b) = false

unfoldable pub size : StringTable → ℕ
size t = t.baseline_string_count + length t.records

unfoldable pub bind_baseline : StringTable → Baseline → StringTable × ServerStatus
bind_baseline t b =
    if not b.valid
      || not (is_none t.baseline)
      || not (length t.records == 0)
      || not (length t.bytes == 0)
      || not (length t.index == 0)
    then (t, project_artifact_invalid)
    else if ltb maximum b.string_count || ltb maximum b.string_byte_size
    then (t, project_artifact_invalid)
    else (
      record t {
        baseline = some b;
        baseline_string_count = b.string_count;
        baseline_byte_count = b.string_byte_size;
      },
      success,
    )

-- the for loop of hash_text
hash_from : ℕ → Text → ℕ
hash_from hash [] = hash
hash_from hash (character ∷ value) = hash_from (mul32 (bit_xor hash character) 16777619) value

unfoldable pub hash_text : Text → ℕ
unfolding hash_from
hash_text value = let hash = hash_from 2166136261 value in if hash == 0 then 1 else hash

unfoldable pub baseline_contains : Option Baseline → ℕ → Bool
unfolding text_empty
baseline_contains none id = false
baseline_contains (some b) id = not (text_empty (b.string id))

unfoldable pub contains : StringTable → ℕ → Bool
unfolding baseline_contains
contains t id =
    if id == 0
    then false
    else if leb id t.baseline_string_count
    then baseline_contains t.baseline id
    else ltb (id - t.baseline_string_count - 1) (length t.records)

unfoldable pub baseline_string : Option Baseline → ℕ → Text
baseline_string none id = []
baseline_string (some b) id = b.string id

unfoldable pub record_text : Text → Option StringRecord → Text
record_text bytes none = []
record_text bytes (some r) =
    if ltb (length bytes) r.offset || ltb (length bytes - r.offset) r.text_length
    then []
    else take r.text_length (drop r.offset bytes)

unfoldable pub get : StringTable → ℕ → Text
unfolding baseline_string record_text
get t id =
    if id == 0
    then []
    else if leb id t.baseline_string_count
    then baseline_string t.baseline id
    else record_text t.bytes (get_elem? t.records (id - t.baseline_string_count - 1))

unfoldable pub spelling : StringTable → ℕ → Text
unfolding get size
spelling t slot = if slot == 0 || ltb (size t) slot then [] else get t slot

unfoldable pub baseline_find : Option Baseline → Text → ℕ
baseline_find none value = 0
baseline_find (some b) value = b.find_string value

-- where the loop of find_hashed stops
abbrev pub matches : StringTable → Text → ℕ → ℕ → Bool
matches t value hash position =
    (get_or t.index position vacant).hash == hash
    && text_eq (get t (get_or t.index position vacant).id) value

unfoldable pub find_indexed : ℕ → StringTable → Text → ℕ → ℕ → ℕ
unfolding text_eq
find_indexed zero t value hash position = 0
find_indexed (suc fuel) t value hash position =
    let rest = find_indexed fuel t value hash (wrap (length t.index) (position + 1)) in
    let slot = get_or t.index position vacant in
    if slot.id == 0 then 0 else if matches t value hash position then slot.id else rest

unfoldable pub find_hashed : StringTable → Text → ℕ → ℕ
unfolding find_indexed baseline_find
find_hashed t value hash =
    let found =
      if length t.index == 0
      then 0
      else find_indexed (length t.index) t value hash (wrap (length t.index) hash) in
    if found == 0 then baseline_find t.baseline value else found

unfoldable pub find : StringTable → Text → ℕ
find t value = if text_empty value then 0 else find_hashed t value (hash_text value)

unfoldable pub insert_index : List StringSlot → ℕ → ℕ → List StringSlot
unfolding probe
insert_index target id hash =
    set target
      (probe (length target) (length target) (λ position. (get_or target position vacant).id == 0)
        (wrap (length target) hash))
      (record { hash = hash; id = id })

-- the for loop of ensure_index_capacity, from a number of strings on
unfoldable pub insert_records : List StringSlot → ℕ → List StringRecord → List StringSlot
insert_records candidate before [] = candidate
insert_records candidate before (r ∷ records) =
    insert_records (insert_index candidate (u32 (before + 1)) r.hash) (before + 1) records

unfoldable pub ensure_index_capacity : StringTable → ℕ → StringTable × ServerStatus
ensure_index_capacity t additional =
    let required = length t.records + additional in
    let capacity = next_capacity required in
    if ltb (u64_mod - 1 - length t.records) additional
    then (t, io_error)
    else if not (length t.index == 0) && leb required (length t.index / 2)
    then (t, success)
    else if capacity == 0
    then (t, io_error)
    else (
      record t {
        index = insert_records (replicate capacity vacant) t.baseline_string_count t.records;
      },
      success,
    )

unfoldable pub too_large : StringTable → Text → Bool
too_large t value =
    ltb maximum t.baseline_string_count
    || leb (maximum - t.baseline_string_count) (length t.records)
    || ltb maximum (length value)
    || ltb maximum t.baseline_byte_count
    || ltb (maximum - t.baseline_byte_count) (length t.bytes)
    || ltb (maximum - t.baseline_byte_count - length t.bytes) (length value)

-- the new record, its bytes and its slot
unfoldable pub append_text : StringTable → Text → ℕ → StringTable × ℕ
append_text t value hash =
    let id = u32 (t.baseline_string_count + (length t.records + 1)) in
    (
      record t {
        bytes = t.bytes ++ value;
        records =
            t.records
            ++ record {
              offset = u32 (length t.bytes);
              text_length = u32 (length value);
              hash = hash;
            }
              ∷ [];
        index = insert_index t.index id hash;
      },
      id,
    )

unfoldable pub intern_new : StringTable → Text → ℕ → StringTable × ℕ × ServerStatus
intern_new t value hash =
    let (prepared, status) = ensure_index_capacity t 1 in
    let (appended, id) = append_text prepared value hash in
    if not (succeeded status)
    then (prepared, 0, status)
    else if too_large prepared value
    then (prepared, 0, io_error)
    else (appended, id, success)

unfoldable pub intern : StringTable → Text → StringTable × ℕ × ServerStatus
intern t value =
    let existing = find_hashed t value (hash_text value) in
    if text_empty value
    then (t, 0, project_configuration_invalid)
    else if not (existing == 0)
    then (t, existing, success)
    else intern_new t value (hash_text value)
