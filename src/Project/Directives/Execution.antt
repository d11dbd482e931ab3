-- ===== src/Project/Directives/Execution.antt =====
-- directive_executor::execute and finish_file of project/frontend/directive_executor.cpp.
use server_engine_v.Common.{
  ℕ, Bool, true, false, not, ◌&&◌, ◌||◌, List, [], ◌∷◌, Option, some, none, ltb, leb, ◌==◌,
  if◌then◌else◌, length,
}
use server_engine_v.Text.{Text}
use server_engine_v.Status.{ServerStatus, success, project_configuration_invalid, succeeded}
use server_engine_v.Project.StringTable.{StringTable, find, contains}
use server_engine_v.Project.Preprocessor
use server_engine_v.Project.Preprocessor.{Preprocessor, define_empty, defined, undefine}
use server_engine_v.Project.Directives.{
  DirectiveKind, IncludeForm, no_form, PreprocessingDirective, directive_conditional_depth_limit,
  malformed_operand, invalid_macro_definition, unsupported_directive, invalid_include,
  file_entry_mismatch, unmatched_else, duplicate_else, unmatched_endif, conditional_depth_exceeded,
  unterminated_conditional, Outcome, ConditionalFrame, FileEntryFrame, DirectiveExecutor, no_range,
  no_problem, returns, fail, range_view, intern_range, active, current_file_entry,
}

-- the frame that begin_conditional pushes
abbrev pub new_frame : PreprocessingDirective → Bool → Bool → ConditionalFrame
new_frame d parent condition = record {
  frame_file = d.file;
  frame_source = d.source;
  parent_active = parent;
  condition = condition;
  branch_active = parent && condition;
  else_seen = false;
}

abbrev pub push : DirectiveExecutor → ConditionalFrame → DirectiveExecutor
push e frame = record e { conditionals = frame ∷ e.conditionals }

-- the test of #ifdef, or of #ifndef
unfoldable pub holds : DirectiveExecutor → Text → Bool → Bool
holds e spelling inverted =
    let id = find e.strings spelling in
    let is_defined = not (id == 0) && defined (contains e.strings) e.bindings id in
    if inverted then not is_defined else is_defined

unfoldable pub begin_active :
    DirectiveExecutor → PreprocessingDirective → Bool → Option Text → DirectiveExecutor × Outcome
begin_active e d inverted none = (e, fail malformed_operand d.file d.name)
begin_active e d inverted (some spelling) =
    (push e (new_frame d true (holds e spelling inverted)), returns success)

unfoldable pub begin_conditional :
    DirectiveExecutor → PreprocessingDirective → Text → Bool → DirectiveExecutor × Outcome
begin_conditional e d source inverted =
    if length e.conditionals == directive_conditional_depth_limit
    then (e, fail conditional_depth_exceeded d.file d.source)
    else if active e
    then begin_active e d inverted (range_view source d.name)
    else (push e (new_frame d false false), returns success)

-- #else on the stack of conditionals above a floor
unfoldable pub take_else :
    DirectiveExecutor
    → PreprocessingDirective
    → ℕ
    → List ConditionalFrame
    → DirectiveExecutor × Outcome
take_else e d floor [] = (e, fail unmatched_else d.file d.source)
take_else e d floor (frame ∷ frames) =
    if leb (length (frame ∷ frames)) floor || not (frame.frame_file == d.file)
    then (e, fail unmatched_else d.file d.source)
    else if frame.else_seen
    then (e, fail duplicate_else d.file d.source)
    else (
      record e {
        conditionals =
            record frame {
              else_seen = true;
              branch_active = frame.parent_active && not frame.condition;
            }
            ∷ frames;
      },
      returns success,
    )

unfoldable pub take_endif :
    DirectiveExecutor
    → PreprocessingDirective
    → ℕ
    → List ConditionalFrame
    → DirectiveExecutor × Outcome
take_endif e d floor [] = (e, fail unmatched_endif d.file d.source)
take_endif e d floor (frame ∷ frames) =
    if leb (length (frame ∷ frames)) floor || not (frame.frame_file == d.file)
    then (e, fail unmatched_endif d.file d.source)
    else (record e { conditionals = frames }, returns success)

is_configuration_invalid : ServerStatus → Bool
is_configuration_invalid project_configuration_invalid = true
is_configuration_invalid _ = false

-- the end of #define: the bindings, and the status with its error
unfoldable pub finish_define :
    DirectiveExecutor
    → PreprocessingDirective
    → StringTable
    → Preprocessor × ServerStatus
    → DirectiveExecutor × Outcome
unfolding is_configuration_invalid
finish_define e d strings (bindings, status) = (
  record e { strings = strings; bindings = bindings },
  if is_configuration_invalid status
      then fail invalid_macro_definition d.file d.source
      else returns status,
)

unfoldable pub execute_define :
    DirectiveExecutor → PreprocessingDirective → Text → DirectiveExecutor × Outcome
execute_define e d source =
    let (named, name, name_status) = intern_range source d.name e.strings in
    let (replaced, replacement, status) = intern_range source d.replacement named in
    if not (succeeded name_status)
    then (record e { strings = named }, fail malformed_operand d.file d.name)
    else if d.replacement.range_length == 0
    then finish_define e d named (define_empty (contains named) e.bindings name)
    else if not (succeeded status)
    then (record e { strings = replaced }, fail malformed_operand d.file d.replacement)
    else finish_define e d replaced
        (Preprocessor.define (contains replaced) e.bindings name replacement)

unfoldable pub undefine_view :
    DirectiveExecutor → PreprocessingDirective → Option Text → DirectiveExecutor × Outcome
undefine_view e d none = (e, fail malformed_operand d.file d.name)
undefine_view e d (some spelling) =
    let id = find e.strings spelling in
    let (bindings, status) = undefine (contains e.strings) e.bindings id in
    if id == 0 then (e, returns success) else (record e { bindings = bindings }, returns status)

abbrev pub is_no_form : IncludeForm → Bool
is_no_form no_form = true
is_no_form _ = false

unfoldable pub execute_include : PreprocessingDirective → Outcome
execute_include d =
    if is_no_form d.form || d.locator.range_length == 0
    then fail invalid_include d.file d.source
    else record {
      status = success;
      requested =
          some (record { from = d.file; request_form = d.form; request_locator = d.locator });
      problem = no_problem;
    }

-- the second switch of execute, in an active region
unfoldable pub execute_active :
    DirectiveKind → DirectiveExecutor → PreprocessingDirective → Text → DirectiveExecutor × Outcome
execute_active DirectiveKind.define e d source = execute_define e d source
execute_active DirectiveKind.undef e d source = undefine_view e d (range_view source d.name)
execute_active DirectiveKind.include e d source = (e, execute_include d)
execute_active DirectiveKind.line e d source = (e, fail unsupported_directive d.file d.source)
execute_active DirectiveKind.error e d source = (e, fail unsupported_directive d.file d.source)
execute_active DirectiveKind.pragma e d source = (e, fail unsupported_directive d.file d.source)
execute_active DirectiveKind.unknown e d source = (e, fail unsupported_directive d.file d.source)
execute_active DirectiveKind.invalid e d source = (e, fail malformed_operand d.file d.source)
execute_active _ e d source = (e, returns project_configuration_invalid)

abbrev pub execute_plain :
    DirectiveKind → DirectiveExecutor → PreprocessingDirective → Text → DirectiveExecutor × Outcome
execute_plain kind e d source =
    if not (active e) then (e, returns success) else execute_active kind e d source

-- the first switch of execute
unfoldable pub execute_kind :
    DirectiveKind
    → DirectiveExecutor
    → PreprocessingDirective
    → Text
    → ℕ
    → DirectiveExecutor × Outcome
execute_kind DirectiveKind.ifdef e d source floor = begin_conditional e d source false
execute_kind DirectiveKind.ifndef e d source floor = begin_conditional e d source true
execute_kind DirectiveKind.else_branch e d source floor = take_else e d floor e.conditionals
execute_kind DirectiveKind.endif e d source floor = take_endif e d floor e.conditionals
execute_kind DirectiveKind.if_expression e d source floor =
    (e, fail unsupported_directive d.file d.source)
execute_kind DirectiveKind.elif e d source floor = (e, fail unsupported_directive d.file d.source)
execute_kind DirectiveKind.define e d source floor = execute_plain DirectiveKind.define e d source
execute_kind DirectiveKind.undef e d source floor = execute_plain DirectiveKind.undef e d source
execute_kind DirectiveKind.include e d source floor = execute_plain DirectiveKind.include e d source
execute_kind DirectiveKind.line e d source floor = execute_plain DirectiveKind.line e d source
execute_kind DirectiveKind.error e d source floor = execute_plain DirectiveKind.error e d source
execute_kind DirectiveKind.pragma e d source floor = execute_plain DirectiveKind.pragma e d source
execute_kind DirectiveKind.unknown e d source floor = execute_plain DirectiveKind.unknown e d source
execute_kind DirectiveKind.invalid e d source floor = execute_plain DirectiveKind.invalid e d source

unfoldable pub execute_at :
    DirectiveExecutor → PreprocessingDirective → Text → Option ℕ → DirectiveExecutor × Outcome
execute_at e d source none = (e, fail file_entry_mismatch d.file d.source)
execute_at e d source (some floor) = execute_kind d.kind e d source floor

unfoldable pub execute :
    DirectiveExecutor → PreprocessingDirective → Text → DirectiveExecutor × Outcome
unfolding execute_at
execute e d source = execute_at e d source (current_file_entry e d.file)

unfoldable pub leave_at : DirectiveExecutor → ℕ → List FileEntryFrame → DirectiveExecutor × Outcome
leave_at e file [] = (e, fail file_entry_mismatch file no_range)
leave_at e file (entry ∷ entries) = (record e { file_entries = entries }, returns success)

-- the conditionals that are open above the floor
unfoldable pub close_file :
    DirectiveExecutor → ℕ → ℕ → List ConditionalFrame → DirectiveExecutor × Outcome
close_file e file floor [] =
    if not (0 == floor)
    then (e, fail file_entry_mismatch file no_range)
    else leave_at e file e.file_entries
close_file e file floor (opening ∷ frames) =
    if ltb floor (length (opening ∷ frames))
    then (e, fail unterminated_conditional opening.frame_file opening.frame_source)
    else if not (length (opening ∷ frames) == floor)
    then (e, fail file_entry_mismatch file no_range)
    else leave_at e file e.file_entries

unfoldable pub finish_at : DirectiveExecutor → ℕ → Option ℕ → DirectiveExecutor × Outcome
finish_at e file none = (e, fail file_entry_mismatch file no_range)
finish_at e file (some floor) = close_file e file floor e.conditionals

unfoldable pub finish_file : DirectiveExecutor → ℕ → DirectiveExecutor × Outcome
unfolding finish_at
finish_file e file = finish_at e file (current_file_entry e file)
