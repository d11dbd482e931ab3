-- ===== src/Project/Directives.antt =====
-- project/frontend/directive_executor.{hpp,cpp}, with the directive of directive_decoder.hpp: what a
-- preprocessing directive does to the #define bindings, the strings and the stack of conditionals.
-- The two arrays with their depths are lists, the innermost entry first. A file_id is its number, 0
-- when invalid.
pub mod Execution
pub mod Predefines
pub mod Stack
pub mod Files
pub mod Blocks
pub mod Evaluation
pub mod Skipping
pub mod Meaning
pub mod Nesting
use server_engine_v.Common.{
  ℕ, zero, suc, ◌+◌, ◌-◌, Bool, true, false, not, ◌&&◌, ◌||◌, List, [], ◌∷◌, Option, some, none,
  ltb, leb, ◌==◌, if◌then◌else◌, length, take, drop,
}
use server_engine_v.Text.{Text, text_empty}
use server_engine_v.Status.{ServerStatus, success, project_configuration_invalid, succeeded}
use server_engine_v.Project.StringTable.{StringTable, intern, find, contains}
use server_engine_v.Project.Preprocessor
use server_engine_v.Project.Preprocessor.{Preprocessor, define_empty, defined, undefine}

pub record SourceRange : Type 0 where
  pub offset : ℕ
  pub range_length : ℕ

pub data DirectiveKind : Type 0 where
  invalid include define undef if_expression ifdef ifndef elif else_branch endif : DirectiveKind
  line error pragma unknown : DirectiveKind

pub data IncludeForm : Type 0 where
  no_form quoted angled : IncludeForm

pub record PreprocessingDirective : Type 0 where
  pub kind : DirectiveKind
  pub file : ℕ
  pub source : SourceRange
  pub form : IncludeForm
  pub locator : SourceRange
  pub name : SourceRange
  pub replacement : SourceRange

abbrev pub directive_conditional_depth_limit : ℕ
directive_conditional_depth_limit = 256

pub data ErrorKind : Type 0 where
  no_error malformed_operand invalid_macro_definition unsupported_directive : ErrorKind
  invalid_include file_entry_mismatch unmatched_else duplicate_else unmatched_endif : ErrorKind
  conditional_depth_exceeded unterminated_conditional : ErrorKind

pub record ExecutionError : Type 0 where
  pub error_kind : ErrorKind
  pub error_file : ℕ
  pub error_source : SourceRange

pub record IncludeRequest : Type 0 where
  pub from : ℕ
  pub request_form : IncludeForm
  pub request_locator : SourceRange

-- what execute returns: the status, the include request if there is one, and the error
pub record Outcome : Type 0 where
  pub status : ServerStatus
  pub requested : Option IncludeRequest
  pub problem : ExecutionError

pub record ConditionalFrame : Type 0 where
  pub frame_file : ℕ
  pub frame_source : SourceRange
  pub parent_active : Bool
  pub condition : Bool
  pub branch_active : Bool
  pub else_seen : Bool

pub record FileEntryFrame : Type 0 where
  pub entry_file : ℕ
  pub conditional_floor : ℕ

pub record DirectiveExecutor : Type 0 where
  pub strings : StringTable
  pub bindings : Preprocessor
  pub conditionals : List ConditionalFrame
  pub file_entries : List FileEntryFrame

abbrev pub no_range : SourceRange
no_range = record { offset = 0; range_length = 0 }

abbrev pub no_problem : ExecutionError
no_problem = record { error_kind = no_error; error_file = 0; error_source = no_range }

abbrev pub returns : ServerStatus → Outcome
returns status = record { status = status; requested = none; problem = no_problem }

unfoldable pub fail : ErrorKind → ℕ → SourceRange → Outcome
fail kind file source = record {
  status = project_configuration_invalid;
  requested = none;
  problem = record { error_kind = kind; error_file = file; error_source = source };
}

unfoldable pub range_view : Text → SourceRange → Option Text
range_view source range =
    if range.range_length == 0
      || ltb (length source) range.offset
      || ltb (length source - range.offset) range.range_length
    then none
    else some (take range.range_length (drop range.offset source))

intern_view : StringTable → Option Text → StringTable × ℕ × ServerStatus
intern_view strings none = (strings, 0, project_configuration_invalid)
intern_view strings (some spelling) = intern strings spelling

unfoldable pub intern_range : Text → SourceRange → StringTable → StringTable × ℕ × ServerStatus
unfolding intern_view range_view
intern_range source range strings = intern_view strings (range_view source range)

unfoldable pub reset : DirectiveExecutor → DirectiveExecutor
reset e = record e { conditionals = []; file_entries = [] }

unfoldable pub top_active : List ConditionalFrame → Bool
top_active [] = true
top_active (frame ∷ frames) = frame.branch_active

unfoldable pub active : DirectiveExecutor → Bool
unfolding top_active
active e = top_active e.conditionals

-- the conditional floor of the current file entry, if it is the file's
unfoldable pub floor_of : List FileEntryFrame → ℕ → ℕ → Option ℕ
floor_of [] file depth = none
floor_of (entry ∷ entries) file depth =
    if file == 0 || not (entry.entry_file == file) || ltb depth entry.conditional_floor
    then none
    else some entry.conditional_floor

unfoldable pub current_file_entry : DirectiveExecutor → ℕ → Option ℕ
unfolding floor_of
current_file_entry e file = floor_of e.file_entries file (length e.conditionals)

abbrev pub frontend_include_depth_limit : ℕ
frontend_include_depth_limit = 256

unfoldable pub enter_file : DirectiveExecutor → ℕ → DirectiveExecutor × ServerStatus
enter_file e file =
    if file == 0 || length e.file_entries == frontend_include_depth_limit
    then (e, project_configuration_invalid)
    else (
      record e {
        file_entries =
            record { entry_file = file; conditional_floor = length e.conditionals }
            ∷ e.file_entries;
      },
      success,
    )
