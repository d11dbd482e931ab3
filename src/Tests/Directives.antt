-- ===== src/Tests/Directives.antt =====
-- The directive executor on the directives of two small files.
use server_engine_v.Common.{ℕ, ◌≡◌, ◌⊎◌, refl, arith, true, false, List, [], ◌∷◌}
use server_engine_v.Text.{Text, codes, text_eq, text_empty}
use server_engine_v.Status.{succeeded}
use server_engine_v.Project.Probing.{grow, next_capacity, probe}
use server_engine_v.Project.Preprocessor.{
  hash_name, position, insert_slot, insert_all, ensure_capacity, define_new, define_impl,
  define_empty, defined,
}
use server_engine_v.Project.StringTable.{
  empty_table, hash_text, contains, get, find_indexed, find_hashed, find, insert_index,
  insert_records, ensure_index_capacity, too_large, append_text, intern_new, intern,
}
use server_engine_v.Project.Directives.{
  SourceRange, DirectiveKind, no_form, PreprocessingDirective, DirectiveExecutor, range_view,
  intern_range, fail, no_range, active, top_active, current_file_entry, floor_of, enter_file,
}
use server_engine_v.Project.Directives.Execution.{
  holds, begin_active, begin_conditional, take_else, take_endif, finish_define, execute_define,
  execute_active, execute_kind, execute_at, execute, leave_at, close_file, finish_at, finish_file,
}
use server_engine_v.Project.Directives.Files.{
  FileRun, ends, directive, included, run_file, included-restores,
}
use server_engine_v.Project.Directives.Blocks.{
  PlainKind, Block, nothing, plain, choose, flatten, run_list, eval,
}
use server_engine_v.Project.Directives.Skipping.{IsAt}
use server_engine_v.Project.Directives.Nesting.{run_list-eval}

-- a text with the names PUMP and VALVE
abbrev source_text : Text
source_text = codes "PUMP VALVE"

abbrev pump_range : SourceRange
pump_range = record { offset = 0; range_length = 4 }

abbrev valve_range : SourceRange
valve_range = record { offset = 5; range_length = 5 }

abbrev of_file : ℕ → DirectiveKind → SourceRange → PreprocessingDirective
of_file file kind name = record {
  kind = kind;
  file = file;
  source = no_range;
  form = no_form;
  locator = no_range;
  name = name;
  replacement = no_range;
}

abbrev fresh_executor : DirectiveExecutor
fresh_executor = record {
  strings = empty_table;
  bindings = record { definitions = []; definition_count = 0 };
  conditionals = [];
  file_entries = [];
}

-- #ifdef PUMP, #define PUMP, #else, #define VALVE, #endif
abbrev header_file : FileRun
header_file = directive (of_file 2 DirectiveKind.ifdef pump_range) source_text (
    directive (of_file 2 DirectiveKind.define pump_range) source_text (
      directive (of_file 2 DirectiveKind.else_branch no_range) source_text (
        directive (of_file 2 DirectiveKind.define valve_range) source_text
          (directive (of_file 2 DirectiveKind.endif no_range) source_text ends))))

header_file_runs : (run_file (included 2 header_file ends) fresh_executor).1 ≡ true
unfolding run_file execute execute_at execute_kind execute_active execute_define finish_define
    begin_conditional begin_active take_else take_endif finish_file finish_at close_file leave_at
    enter_file current_file_entry floor_of active top_active holds range_view intern_range find
    find_hashed find_indexed hash_text get text_empty text_eq intern_new intern
    ensure_index_capacity insert_records insert_index append_text too_large next_capacity grow probe
    succeeded define_empty define_impl define_new ensure_capacity insert_all position insert_slot
    hash_name defined fail contains
header_file_runs = refl

-- VALVE is defined then, and PUMP is not.
bindings_after :
    let e = (run_file (included 2 header_file ends) fresh_executor).0 in
    (holds e (codes "VALVE") false ≡ true) × (holds e (codes "PUMP") false ≡ false)
unfolding run_file execute execute_at execute_kind execute_active execute_define finish_define
    begin_conditional begin_active take_else take_endif finish_file finish_at close_file leave_at
    enter_file current_file_entry floor_of active top_active holds range_view intern_range find
    find_hashed find_indexed hash_text get text_empty text_eq intern_new intern
    ensure_index_capacity insert_records insert_index append_text too_large next_capacity grow probe
    succeeded define_empty define_impl define_new ensure_capacity insert_all position insert_slot
    hash_name defined fail contains
bindings_after = (refl, refl)

included-restores_example :
    ((run_file (included 2 header_file ends) fresh_executor).0.conditionals ≡ [])
    × ((run_file (included 2 header_file ends) fresh_executor).0.file_entries ≡ [])
included-restores_example = included-restores 2 header_file fresh_executor header_file_runs

abbrev entered_executor : DirectiveExecutor
entered_executor = record fresh_executor {
  file_entries = record { entry_file = 2; conditional_floor = 0 } ∷ [];
}

entered-IsAt : IsAt 2 0 entered_executor
entered-IsAt = record {
  valid_file = λ z. omega arith;
  outer = [];
  entered = refl;
  low = omega arith;
}

-- #ifndef PUMP with a #define in each part, and an #ifdef within the second
abbrev nested_block : Block
nested_block =
    choose true (of_file 2 DirectiveKind.ifndef pump_range)
      (of_file 2 DirectiveKind.else_branch no_range) (of_file 2 DirectiveKind.endif no_range)
      (plain PlainKind.define (of_file 2 DirectiveKind.define valve_range) nothing)
      (choose false (of_file 2 DirectiveKind.ifdef valve_range)
        (of_file 2 DirectiveKind.else_branch no_range) (of_file 2 DirectiveKind.endif no_range)
        (plain PlainKind.undef (of_file 2 DirectiveKind.undef valve_range) nothing) nothing nothing)
      nothing

abbrev closing_directives : List PreprocessingDirective
closing_directives = of_file 2 DirectiveKind.define pump_range ∷ []

run_list-eval_example :
    (((eval source_text nested_block entered_executor).1 ≡ true)
      × (run_list source_text (flatten nested_block closing_directives) entered_executor
          ≡ run_list source_text closing_directives
              (eval source_text nested_block entered_executor).0))
    ⊎ (((eval source_text nested_block entered_executor).1 ≡ false)
        × ((run_list source_text (flatten nested_block closing_directives) entered_executor).1
            ≡ false)
        × ((run_list source_text
              (flatten nested_block closing_directives)
              entered_executor).0.strings
            ≡ (eval source_text nested_block entered_executor).0.strings)
        × ((run_list source_text
              (flatten nested_block closing_directives)
              entered_executor).0.bindings
            ≡ (eval source_text nested_block entered_executor).0.bindings))
run_list-eval_example =
    run_list-eval source_text nested_block closing_directives entered_executor entered-IsAt
      (refl, refl, refl, (refl, tt), (refl, refl, refl, (refl, tt), tt, tt), tt) (omega arith)
      (unfold active top_active in refl)
