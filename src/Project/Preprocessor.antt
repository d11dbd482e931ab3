-- ===== src/Project/Preprocessor.antt =====
-- project/preprocessor/preprocessor.{hpp,cpp}: the active #define bindings of one frontend root, in
-- an open-addressed table. A string_id is its number, 0 when invalid; strings.contains is the
-- argument `known`. Running out of memory is left out.
pub mod Expansion
pub mod Occupancy
pub mod Moves
pub mod Insertion
pub mod Rehash
pub mod Removal
pub mod Reinsertion
pub mod Validity
pub mod Lookup
pub mod Bindings
pub mod Replay
pub mod Refinement
pub mod Chain
pub mod Pigeonhole
pub mod Race
pub mod Meeting
pub mod Cycle
use Prim.Native.Nat.{bit_xor}
use server_engine_v.Common.{
  ℕ, zero, suc, ◌+◌, ◌-◌, ◌*◌, ◌/◌, ◌^◌, Bool, true, false, not, ◌&&◌, ◌||◌, List, [], ◌∷◌, ltb,
  ◌==◌, if◌then◌else◌, length, get_or, set, replicate, mul32, u64_mod,
}
use server_engine_v.Status.{
  ServerStatus, success, project_configuration_invalid, io_error, succeeded,
}
use server_engine_v.Project.Probing.{next_capacity, wrap, probe}

pub record DefineSlot : Type 0 where
  pub name : ℕ
  pub replacement : ℕ

abbrev pub vacant : DefineSlot
vacant = record { name = 0; replacement = 0 }

abbrev pub name_of : DefineSlot → ℕ
name_of slot = slot.name

pub record Preprocessor : Type 0 where
  pub definitions : List DefineSlot
  pub definition_count : ℕ

abbrev shift_xor : ℕ → ℕ → ℕ
shift_xor value bits = bit_xor value (value / 2 ^ bits)

unfoldable pub hash_name : ℕ → ℕ
hash_name name =
    let first = mul32 (shift_xor name 16) 0x7feb_352d in
    let second = mul32 (shift_xor first 15) 0x846c_a68b in shift_xor second 16

-- where insert_slot stops, and where position stops
abbrev pub vacant_at : List DefineSlot → ℕ → Bool
vacant_at slots current = (get_or slots current vacant).name == 0

abbrev pub vacant_or_named : List DefineSlot → ℕ → ℕ → Bool
vacant_or_named slots name current =
    (get_or slots current vacant).name == 0 || (get_or slots current vacant).name == name

abbrev pub is_empty : List DefineSlot → Bool
is_empty slots = length slots == 0

unfoldable pub position : List DefineSlot → ℕ → ℕ
unfolding probe
position slots name =
    if is_empty slots
    then 0
    else probe (length slots) (length slots) (vacant_or_named slots name)
        (wrap (length slots) (hash_name name))

unfoldable pub insert_slot : List DefineSlot → DefineSlot → List DefineSlot
unfolding probe
insert_slot target slot =
    set target
      (probe (length target) (length target) (vacant_at target)
        (wrap (length target) (hash_name slot.name)))
      slot

-- the for loop of ensure_capacity
unfoldable pub insert_all : List DefineSlot → List DefineSlot → List DefineSlot
unfolding insert_slot
insert_all candidate [] = candidate
insert_all candidate (slot ∷ slots) =
    insert_all (if slot.name == 0 then candidate else insert_slot candidate slot) slots

unfoldable pub ensure_capacity : Preprocessor → ℕ → Preprocessor × ServerStatus
unfolding insert_all next_capacity
ensure_capacity p additional =
    let required = p.definition_count + additional in
    let capacity = next_capacity required in
    if ltb (u64_mod - 1 - p.definition_count) additional
    then (p, io_error)
    else if not (is_empty p.definitions) && not (ltb (length p.definitions / 2) required)
    then (p, success)
    else if capacity == 0
    then (p, io_error)
    else (record p { definitions = insert_all (replicate capacity vacant) p.definitions }, success)

pub clear_all : List DefineSlot → List DefineSlot
clear_all [] = []
clear_all (slot ∷ slots) = vacant ∷ clear_all slots

unfoldable pub reset : Preprocessor → Preprocessor
unfolding clear_all
reset p = record { definitions = clear_all p.definitions; definition_count = 0 }

-- what define_impl does once the name is not defined
unfoldable pub define_new : Preprocessor → ℕ → ℕ → Preprocessor × ServerStatus
unfolding ensure_capacity succeeded
define_new p name replacement =
    let (prepared, status) = ensure_capacity p 1 in
    if not (succeeded status) then (prepared, status) else (
      record {
        definitions =
            set prepared.definitions (position prepared.definitions name)
              (record { name = name; replacement = replacement });
        definition_count = prepared.definition_count + 1;
      },
      success,
    )

unfoldable pub define_impl : (ℕ → Bool) → Preprocessor → ℕ → ℕ → Preprocessor × ServerStatus
unfolding define_new
define_impl known p name replacement =
    let existing = get_or p.definitions (position p.definitions name) vacant in
    if not (known name) || (not (replacement == 0) && not (known replacement))
    then (p, project_configuration_invalid)
    else if not (is_empty p.definitions) && not (existing.name == 0)
    then (p, if existing.replacement == replacement then success else project_configuration_invalid)
    else define_new p name replacement

-- #define NAME
unfoldable pub define_empty : (ℕ → Bool) → Preprocessor → ℕ → Preprocessor × ServerStatus
unfolding define_impl
define_empty known p name = define_impl known p name 0

-- #define NAME REPLACEMENT
unfoldable pub define : (ℕ → Bool) → Preprocessor → ℕ → ℕ → Preprocessor × ServerStatus
unfolding define_impl
define known p name replacement =
    if replacement == 0
    then (p, project_configuration_invalid)
    else define_impl known p name replacement

-- the while loop of undefine
unfoldable pub reinsert : ℕ → List DefineSlot → ℕ → List DefineSlot
unfolding insert_slot
reinsert zero definitions current = definitions
reinsert (suc fuel) definitions current =
    let slot = get_or definitions current vacant in
    let rest =
      reinsert fuel (insert_slot (set definitions current vacant) slot)
        (wrap (length definitions) (current + 1)) in
    if vacant_at definitions current then definitions else rest

unfoldable pub undefine : (ℕ → Bool) → Preprocessor → ℕ → Preprocessor × ServerStatus
unfolding reinsert
undefine known p name =
    let found = position p.definitions name in
    if not (known name)
    then (p, project_configuration_invalid)
    else if is_empty p.definitions
    then (p, success)
    else if vacant_at p.definitions found
    then (p, success)
    else (
      record {
        definitions =
            reinsert (length p.definitions) (set p.definitions found vacant)
              (wrap (length p.definitions) (found + 1));
        definition_count = p.definition_count - 1;
      },
      success,
    )

unfoldable pub defined : (ℕ → Bool) → Preprocessor → ℕ → Bool
defined known p name =
    known name
    && not (is_empty p.definitions)
    && (get_or p.definitions (position p.definitions name) vacant).name == name
