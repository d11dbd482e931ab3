-- ===== src/License/Loading.antt =====
-- What the licence and lease loaders share: the file, the JSON events of its text, and the result. The
-- JSON parser (json/json_parser.cpp) is a parameter: the events that it sends to a handler, in order,
-- and its message where the text is not JSON.
use server_engine_v.Common.{ℕ, ◌/◌, ◌%◌, Bool, Option, List, ◌==◌}
use server_engine_v.Text.{Text}
use server_engine_v.Status.{ServerStatus}
use server_engine_v.Diagnostics.{DiagnosticCollection, DiagnosticDescriptor, diagnostic, emit}

-- What a loader returns, with its output parameter and the collection that it emitted into.
pub record Loaded (A : Type 0) : Type 0 where
  pub status : ServerStatus
  pub value : A
  pub reported : DiagnosticCollection

-- json_value_view, by what its `get` yields for an unsigned number and for a string.
pub record JsonValue : Type 0 where
  pub unsigned_value : Option ℕ
  pub string_value : Option Text

pub data JsonEvent : Type 0 where
  object_begin object_end array_begin array_end : JsonEvent
  key : Text → JsonEvent
  value : JsonValue → JsonEvent

pub record JsonRun : Type 0 where
  pub events : List JsonEvent
  pub error_message : Option Text

-- The file as the loader reads it: `none` where it cannot be opened or read.
pub record Files : Type 0 where
  pub read : Text → Option Text
  pub parse_json : Text → JsonRun

-- (seen & bit) != 0, for a bit that is a power of two
abbrev pub is_set : ℕ → ℕ → Bool
is_set seen bit = seen / bit % 2 == 1

abbrev pub rejects :
    {A : Type 0}
    → A
    → ServerStatus
    → DiagnosticDescriptor
    → ℕ
    → Text
    → DiagnosticCollection
    → Loaded A
rejects output status d op text ds = record {
  status = status;
  value = output;
  reported = emit ds (diagnostic d op text);
}
