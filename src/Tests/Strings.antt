-- ===== src/Tests/Strings.antt =====
-- The string table on concrete texts, over a baseline of two strings.
use server_engine_v.Common.{
  ℕ, zero, suc, ◌≤◌, ◌<◌, ◌≡◌, ◌≢◌, ◌⊎◌, ◌↔◌, refl, sym, arith, true, false, ◌==◌, if◌then◌else◌,
  List, [], ◌∷◌, Bool-cases, inl, inr,
}
use server_engine_v.Text.{Text, codes, text_eq, text_eq_sound, text_empty}
use server_engine_v.Status.{success, project_artifact_invalid, succeeded}
use server_engine_v.Project.Probing.{grow, next_capacity, probe}
use server_engine_v.Project.StringTable.{
  Baseline, StringTable, empty_table, bind_baseline, hash_text, contains, get, find_indexed,
  find_hashed, find, insert_index, insert_records, ensure_index_capacity, too_large, append_text,
  intern_new, intern, baseline_find, baseline_string,
}
use server_engine_v.Project.StringTable.Reading.{IsIndexed, IsValid}
use server_engine_v.Project.StringTable.Finding.{find_iff}
use server_engine_v.Project.StringTable.Interning.{IsInterned, intern-IsInterned}
use server_engine_v.Project.StringTable.Sequences.{ReadsBack, intern_all, intern_all-ReadsBack}
use server_engine_v.Project.StringTable.Binding.{IsBindable, empty_table-IsValid, bind_baseline_lem}

abbrev port_string : ℕ → Text
port_string id = if id == 1 then codes "in" else if id == 2 then codes "out" else []

abbrev find_port : Text → ℕ
find_port v = if text_eq v (codes "in") then 1 else if text_eq v (codes "out") then 2 else 0

abbrev ports : Baseline
ports = record {
  valid = true;
  string_count = 2;
  string_byte_size = 5;
  string = port_string;
  find_string = find_port;
}

find_port_sound : (v : Text) → find_port v ≢ 0 → (find_port v ≤ 2) × (port_string (find_port v) ≡ v)
find_port_sound v h = elim (Bool-cases (text_eq v (codes "in"))) [
  | inl one ↦ rw one (omega arith, sym (text_eq_sound v (codes "in") one))
  | inr other ↦ elim (Bool-cases (text_eq v (codes "out"))) [
    | inl two ↦ rw (other, two) (omega arith, sym (text_eq_sound v (codes "out") two))
    | inr unknown ↦ absurd (h (rw (other, unknown) refl))
  ]
]

find_port_complete :
    (id : ℕ)
    → id ≢ 0
    → id ≤ 2
    → text_empty (port_string id) ≡ false
    → find_port (port_string id) ≡ id
unfolding text_eq
find_port_complete zero used low full = absurd (used refl)
find_port_complete (suc zero) used low full = refl
find_port_complete (suc (suc zero)) used low full = refl
find_port_complete (suc (suc (suc id))) used low full = absurd (omega arith)

ports-IsIndexed : IsIndexed ports
ports-IsIndexed = record { sound = find_port_sound; complete = find_port_complete }

bind_baseline_lem_example :
    (IsBindable empty_table ports
      × ((bind_baseline empty_table ports).1 ≡ success)
      × IsValid (bind_baseline empty_table ports).0
      × ((id : ℕ) → id ≢ 0 → id ≤ 2 → get (bind_baseline empty_table ports).0 id ≡ port_string id)
      × ((id : ℕ) → 2 < id → contains (bind_baseline empty_table ports).0 id ≡ false))
    ⊎ ((IsBindable empty_table ports → ⊥)
        × ((bind_baseline empty_table ports).1 ≡ project_artifact_invalid)
        × ((bind_baseline empty_table ports).0 ≡ empty_table))
bind_baseline_lem_example = bind_baseline_lem empty_table ports ports-IsIndexed

abbrev words : List Text
words = codes "tank" ∷ [] ∷ codes "in" ∷ codes "valve" ∷ codes "tank" ∷ codes "pump" ∷ []

abbrev interned_words : StringTable × List (Text × ℕ)
interned_words = intern_all empty_table words

intern_all-ReadsBack_example :
    ReadsBack interned_words.0 interned_words.1
    × ((id : ℕ) → contains empty_table id ≡ true → get interned_words.0 id ≡ get empty_table id)
intern_all-ReadsBack_example = intern_all-ReadsBack words empty_table empty_table-IsValid

identities :
    interned_words.1
    ≡ (codes "tank", 1)
      ∷ ([], 0)
      ∷ (codes "in", 2)
      ∷ (codes "valve", 3)
      ∷ (codes "tank", 1)
      ∷ (codes "pump", 4)
      ∷ []
unfolding intern_all find_hashed find_indexed hash_text get text_empty text_eq intern_new
    ensure_index_capacity insert_records insert_index append_text too_large next_capacity grow probe
    succeeded
identities = refl

-- Over the baseline its strings keep their identities, and new ones come after them.
abbrev port_words : List (Text × ℕ)
port_words = (intern_all (bind_baseline empty_table ports).0 words).1

port_identities :
    port_words
    ≡ (codes "tank", 3)
      ∷ ([], 0)
      ∷ (codes "in", 1)
      ∷ (codes "valve", 4)
      ∷ (codes "tank", 3)
      ∷ (codes "pump", 5)
      ∷ []
unfolding intern_all bind_baseline find_hashed find_indexed baseline_find baseline_string hash_text
    get text_empty text_eq intern_new ensure_index_capacity insert_records insert_index append_text
    too_large next_capacity grow probe succeeded
port_identities = refl

intern-IsInterned_example :
    IsInterned empty_table
      (codes "tank")
      (intern empty_table (codes "tank")).0
      (intern empty_table (codes "tank")).1
      (intern empty_table (codes "tank")).2
intern-IsInterned_example = intern-IsInterned empty_table empty_table-IsValid (codes "tank")

find_iff_example : (find (intern empty_table (codes "tank")).0 (codes "tank") ≡ 1) ↔ (
    (contains (intern empty_table (codes "tank")).0 1 ≡ true)
    × (get (intern empty_table (codes "tank")).0 1 ≡ codes "tank"))
find_iff_example =
    find_iff (intern empty_table (codes "tank")).0
      (intern-IsInterned empty_table empty_table-IsValid (codes "tank")).valid (codes "tank") 1
      (λ z. omega arith)
