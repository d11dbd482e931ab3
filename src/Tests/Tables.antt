-- ===== src/Tests/Tables.antt =====
-- The assign table, the source cache and the sorted diagnostics on concrete data.
use mathlib.Core.List.{Perm}
use server_engine_v.Common.{ℕ, ◌-◌, ◌≤◌, arith, ◌≡◌, refl, List, [], ◌∷◌, ◌++◌, length, map}
use server_engine_v.Text.{Text, codes}
use server_engine_v.Diagnostics.{DiagnosticRecord, DiagnosticCollection, error, no_location}
use server_engine_v.Diagnostics.Sort.{
  sort_deterministic, insert_record, compare_records, compare_text, severity_value,
}
use server_engine_v.Diagnostics.Sort.Key.{IsSorted, with_key, sort_deterministic-IsSorted}
use server_engine_v.Diagnostics.SourceCache.{SourceFile, min_size, add, locate}
use server_engine_v.Diagnostics.SourceCache.Position.{walk, locate-add}
use server_engine_v.Project.AssignTable.{AssignTable, maximum, add_all, clear}
use server_engine_v.Project.AssignTable.Contents.{pairs, fitting, add_all-clear}

abbrev old_table : AssignTable
old_table = record { entries = []; bytes = codes "rest" }

abbrev assigns : List (Text × Text)
assigns = (codes "a.b", codes "c") ∷ ([], codes "d") ∷ (codes "e", codes "f.g") ∷ []

add_all-clear_example :
    (pairs (add_all (clear old_table) assigns) ≡ fitting 0 assigns)
    × (length (add_all (clear old_table) assigns).bytes ≤ maximum)
add_all-clear_example = add_all-clear old_table assigns

empty_source_is_refused :
    fitting 0 assigns ≡ (codes "a.b", codes "c") ∷ (codes "e", codes "f.g") ∷ []
unfolding fitting server_engine_v.Text.text_empty
empty_source_is_refused = refl

abbrev report : ℕ → ℕ → Text → DiagnosticRecord
report line number text = record {
  id = number;
  severity = error;
  operation = 1;
  location = record no_location { line = line };
  detail = text;
  message = [];
}

abbrev emitted : DiagnosticCollection
emitted = report 7 2 (codes "x") ∷ report 3 5 (codes "b") ∷ report 3 5 (codes "a") ∷ []

sorted_lines : map (λ r. r.location.line) (sort_deterministic emitted) ≡ 3 ∷ 3 ∷ 7 ∷ []
unfolding sort_deterministic insert_record compare_records compare_text severity_value
sorted_lines = refl

sort_deterministic-IsSorted_example :
    IsSorted (sort_deterministic emitted)
    × Perm emitted (sort_deterministic emitted)
    × ((r : DiagnosticRecord) → with_key r (sort_deterministic emitted) ≡ with_key r emitted)
sort_deterministic-IsSorted_example = sort_deterministic-IsSorted emitted

abbrev program : Text
program = codes "let a;" ++ 10 ∷ codes "run b;" ++ 10 ∷ []

-- The `b` of the second line.
second_line : walk 11 program 1 1 ≡ (2, 5)
unfolding walk
second_line = refl

abbrev no_files : List SourceFile
no_files = []

locate-add_example :
    let (files, id) = add no_files (codes "main.cw") program in
    let o = min_size 11 (length program) in
    let (line, column) = walk o program 1 1 in
    locate files id 11 90 ≡ record {
      file = codes "main.cw";
      offset = o;
      length = min_size 90 (length program - o);
      line = line;
      column = column;
      file_id = length no_files;
    }
locate-add_example = locate-add no_files (codes "main.cw") program 11 90 (omega arith) (omega arith)
