-- ===== src/Project/AssignTable.antt =====
-- project/assign/assign_table.{hpp,cpp}: pairs of texts in one arena of bytes. Running out of memory
-- is left out.
pub mod Contents
use server_engine_v.Common.{
  ℕ, ◌+◌, ◌-◌, ◌%◌, ◌^◌, Bool, true, false, ◌||◌, List, [], ◌∷◌, ◌++◌, ltb, if◌then◌else◌, length,
  take, drop,
}
use server_engine_v.Text.{Text, text_empty}
use server_engine_v.Status.{ServerStatus, success, project_configuration_invalid}

pub record AssignRecord : Type 0 where
  pub source_offset : ℕ
  pub source_length : ℕ
  pub target_offset : ℕ
  pub target_length : ℕ

pub record AssignTable : Type 0 where
  pub entries : List AssignRecord
  pub bytes : Text

abbrev pub maximum : ℕ
maximum = 0xffff_ffff

abbrev pub u32 : ℕ → ℕ
u32 n = n % 2 ^ 32

unfoldable pub add : AssignTable → Text → Text → AssignTable × ServerStatus
unfolding text_empty
add t source target =
    if text_empty source || text_empty target
    then (t, project_configuration_invalid)
    else if ltb maximum (length source)
        || ltb maximum (length target)
        || ltb (maximum - length source) (length t.bytes)
        || ltb (maximum - length target) (length t.bytes + length source)
    then (t, project_configuration_invalid)
    else (
      record {
        bytes = (t.bytes ++ source) ++ target;
        entries =
            t.entries
            ++ record {
              source_offset = u32 (length t.bytes);
              source_length = u32 (length source);
              target_offset = u32 (length t.bytes + length source);
              target_length = u32 (length target);
            }
              ∷ [];
      },
      success,
    )

unfoldable pub clear : AssignTable → AssignTable
clear t = record { entries = []; bytes = [] }

unfoldable pub text : AssignTable → ℕ → ℕ → Text
text t offset size =
    if ltb (length t.bytes) offset || ltb (length t.bytes - offset) size
    then []
    else take size (drop offset t.bytes)

unfoldable pub source : AssignTable → AssignRecord → Text
unfolding text
source t r = text t r.source_offset r.source_length

unfoldable pub target : AssignTable → AssignRecord → Text
unfolding text
target t r = text t r.target_offset r.target_length

-- add, for each pair in turn
unfoldable pub add_all : AssignTable → List (Text × Text) → AssignTable
add_all t [] = t
add_all t ((s, x) ∷ ps) = add_all (add t s x).0 ps
