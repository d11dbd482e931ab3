-- ===== src/Diagnostics/Sort.antt =====
-- diagnostic_collection::sort_deterministic: std::ranges::stable_sort by the key that the lambda projects. The key is the
-- program's; the algorithm of the standard library is an insertion sort here.
pub mod Keys
pub mod Order
pub mod Key
use server_engine_v.Common.{ℕ, Bool, true, false, [], ◌∷◌, compare, Ordering, if◌then◌else◌}
use server_engine_v.Text.{Text}
use server_engine_v.Diagnostics.{
  Severity, note, warning, error, fatal, DiagnosticRecord, DiagnosticCollection,
}

-- The first comparison that is not equality decides, as for std::tuple.
abbrev pub then_by : Ordering → Ordering → Ordering
then_by Ordering.lt o = Ordering.lt
then_by Ordering.eq o = o
then_by Ordering.gt o = Ordering.gt

unfoldable pub compare_text : Text → Text → Ordering
compare_text [] [] = Ordering.eq
compare_text [] (d ∷ ds) = Ordering.lt
compare_text (c ∷ cs) [] = Ordering.gt
compare_text (c ∷ cs) (d ∷ ds) = then_by (compare c d) (compare_text cs ds)

unfoldable pub severity_value : Severity → ℕ
severity_value note = 0
severity_value warning = 1
severity_value error = 2
severity_value fatal = 3

unfoldable pub compare_records : DiagnosticRecord → DiagnosticRecord → Ordering
compare_records a b = then_by (compare_text a.location.file b.location.file) (
    then_by (compare a.location.line b.location.line) (
      then_by (compare a.location.column b.location.column) (
        then_by (compare a.location.offset b.location.offset) (
          then_by (compare a.location.length b.location.length) (
            then_by (compare a.id b.id) (
              then_by (compare (severity_value a.severity) (severity_value b.severity)) (
                then_by (compare a.operation b.operation) (
                  then_by (compare_text a.message b.message)
                    (compare_text a.detail b.detail)))))))))

-- `b` goes strictly before `a`.
abbrev pub precedes : DiagnosticRecord → DiagnosticRecord → Bool
precedes b a = elim (compare_records b a) [ Ordering.lt ↦ true | _ ↦ false ]

-- Insertion before the first record that does not precede `r`.
unfoldable pub insert_record : DiagnosticRecord → DiagnosticCollection → DiagnosticCollection
insert_record r [] = r ∷ []
insert_record r (x ∷ xs) = if precedes x r then x ∷ insert_record r xs else r ∷ x ∷ xs

-- The stable sort: equal records keep their order, since each is put before those behind it.
unfoldable pub sort_deterministic : DiagnosticCollection → DiagnosticCollection
sort_deterministic [] = []
sort_deterministic (r ∷ rs) = insert_record r (sort_deterministic rs)
