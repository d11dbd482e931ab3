-- ===== src/Diagnostics/Sort/Key.antt =====
-- The order of diagnostics for a reader: by file, line, column, offset, length, id, severity, operation, message and
-- detail, and the first of them that differs decides.
use mathlib.Core.List.{Perm}
use server_engine_v.Common.{
  ℕ, ◌<◌, ◌≡◌, ◌⊎◌, refl, sym, ap, ◌∙◌, Bool, true, false, ◌&&◌, ◌==◌, [], ◌∷◌, arith, compare,
  Ordering, if◌then◌else◌, inl, inr,
}
use server_engine_v.Text.{Text, text_eq}
use server_engine_v.Diagnostics.{
  Severity, note, warning, error, fatal, DiagnosticRecord, DiagnosticCollection,
}
use server_engine_v.Diagnostics.Sort.{
  compare_text, compare_records, precedes, then_by, severity_value, sort_deterministic,
}
use server_engine_v.Diagnostics.Sort.Order.{
  IsLeast, IsOrdered, alike, sort_deterministic-IsOrdered, sort_deterministic-Perm,
  alike-sort_deterministic,
}

-- A proper beginning comes first, and else the first different byte decides.
abbrev pub IsTextBefore : Text → Text → Type 0
IsTextBefore s [] = ⊥
IsTextBefore [] (d ∷ ds) = Unit {0}
IsTextBefore (c ∷ cs) (d ∷ ds) = (c < d) ⊎ ((c ≡ d) × IsTextBefore cs ds)

abbrev rank : Severity → ℕ
rank note = 0
rank warning = 1
rank error = 2
rank fatal = 3

abbrev ByNumber : ℕ → ℕ → Type 0 → Type 0
ByNumber m n R = (m < n) ⊎ ((m ≡ n) × R)

abbrev ByText : Text → Text → Type 0 → Type 0
ByText s t R = IsTextBefore s t ⊎ ((s ≡ t) × R)

abbrev pub IsBefore : DiagnosticRecord → DiagnosticRecord → Type 0
IsBefore a b = ByText a.location.file b.location.file (
    ByNumber a.location.line b.location.line (
      ByNumber a.location.column b.location.column (
        ByNumber a.location.offset b.location.offset (
          ByNumber a.location.length b.location.length (
            ByNumber a.id b.id (
              ByNumber (rank a.severity) (rank b.severity) (
                ByNumber a.operation b.operation
                  (ByText a.message b.message (IsTextBefore a.detail b.detail)))))))))

-- All that a reader sees of the two records is the same.
unfoldable pub same_key : DiagnosticRecord → DiagnosticRecord → Bool
same_key a b =
    text_eq a.location.file b.location.file
    && (a.location.line == b.location.line
        && (a.location.column == b.location.column
            && (a.location.offset == b.location.offset
                && (a.location.length == b.location.length
                    && (a.id == b.id
                        && (rank a.severity == rank b.severity
                            && (a.operation == b.operation
                                && (text_eq a.message b.message && text_eq a.detail b.detail))))))))

-- The records that look like `r`, in their order.
unfoldable pub with_key : DiagnosticRecord → DiagnosticCollection → DiagnosticCollection
with_key r [] = []
with_key r (x ∷ xs) = let rest = with_key r xs in if same_key x r then x ∷ rest else rest

IsTextBefore-compare_text : (s t : Text) → IsTextBefore s t → compare_text s t ≡ Ordering.lt
unfolding compare_text
IsTextBefore-compare_text [] [] h = absurd h
IsTextBefore-compare_text (c ∷ cs) [] h = absurd h
IsTextBefore-compare_text [] (d ∷ ds) h = refl
IsTextBefore-compare_text (c ∷ cs) (d ∷ ds) (inl h) = ground arith
IsTextBefore-compare_text (c ∷ cs) (d ∷ ds) (inr (e, h)) =
    let rest = IsTextBefore-compare_text cs ds h in ground arith

compare_text_refl : (s : Text) → compare_text s s ≡ Ordering.eq
unfolding compare_text
compare_text_refl [] = refl
compare_text_refl (c ∷ cs) = let rest = compare_text_refl cs in ground arith

by_number :
    {R : Type 0} {o : Ordering} (m n : ℕ)
    → (R → o ≡ Ordering.lt)
    → ByNumber m n R
    → then_by (compare m n) o ≡ Ordering.lt
by_number m n rest (inl h) = ground arith
by_number m n rest (inr (e, h)) = let less = rest h in ground arith

by_text :
    {R : Type 0} {o : Ordering} (s t : Text)
    → (R → o ≡ Ordering.lt)
    → ByText s t R
    → then_by (compare_text s t) o ≡ Ordering.lt
by_text s t rest (inl h) = let less = IsTextBefore-compare_text s t h in rw less refl
by_text {o = o} s t rest (inr (e, h)) =
    let same : compare_text s t ≡ Ordering.eq =
      ap (λ x. compare_text s x) (sym e) ∙ compare_text_refl s in
    rw (same, rest h) refl

severity_rank : (v : Severity) → severity_value v ≡ rank v
unfolding severity_value
severity_rank note = refl
severity_rank warning = refl
severity_rank error = refl
severity_rank fatal = refl

IsBefore-compare_records :
    (a b : DiagnosticRecord) → IsBefore a b → compare_records a b ≡ Ordering.lt
unfolding compare_records
IsBefore-compare_records a b h =
    rw (severity_rank a.severity, severity_rank b.severity)
      (by_text a.location.file b.location.file
        (by_number a.location.line b.location.line (
          by_number a.location.column b.location.column (
            by_number a.location.offset b.location.offset (
              by_number a.location.length b.location.length (
                by_number a.id b.id (
                  by_number (rank a.severity) (rank b.severity) (
                    by_number a.operation b.operation (
                      by_text a.message b.message
                        (IsTextBefore-compare_text a.detail b.detail)))))))))
        h)

abbrev is_eq : Ordering → Bool
is_eq Ordering.lt = false
is_eq Ordering.eq = true
is_eq Ordering.gt = false

is_eq-then_by : (o o' : Ordering) → is_eq (then_by o o') ≡ (is_eq o && is_eq o')
is_eq-then_by Ordering.lt o' = refl
is_eq-then_by Ordering.eq o' = refl
is_eq-then_by Ordering.gt o' = refl

is_eq-compare : (m n : ℕ) → is_eq (compare m n) ≡ (m == n)
is_eq-compare m n = ground arith

is_eq-compare_text : (s t : Text) → is_eq (compare_text s t) ≡ text_eq s t
unfolding compare_text text_eq
is_eq-compare_text [] [] = refl
is_eq-compare_text [] (d ∷ ds) = refl
is_eq-compare_text (c ∷ cs) [] = refl
is_eq-compare_text (c ∷ cs) (d ∷ ds) =
    is_eq-then_by (compare c d) (compare_text cs ds)
    ∙ rw (is_eq-compare c d, is_eq-compare_text cs ds) refl

is_eq-compare_records : (a b : DiagnosticRecord) → is_eq (compare_records a b) ≡ same_key a b
unfolding compare_records same_key
is_eq-compare_records a b =
    rw (severity_rank a.severity, severity_rank b.severity)
      (text _ a.location.file b.location.file (
        number _ a.location.line b.location.line (
          number _ a.location.column b.location.column (
            number _ a.location.offset b.location.offset (
              number _ a.location.length b.location.length (
                number _ a.id b.id (
                  number _ (rank a.severity) (rank b.severity) (
                    number _ a.operation b.operation
                      (text _ a.message b.message (is_eq-compare_text a.detail b.detail))))))))))
  where
    number :
        (o : Ordering) {rest : Bool} (m n : ℕ)
        → is_eq o ≡ rest
        → is_eq (then_by (compare m n) o) ≡ (m == n && rest)
    number o m n h = is_eq-then_by (compare m n) o ∙ rw (is_eq-compare m n, h) refl

    text :
        (o : Ordering) {rest : Bool} (s t : Text)
        → is_eq o ≡ rest
        → is_eq (then_by (compare_text s t) o) ≡ (text_eq s t && rest)
    text o s t h = is_eq-then_by (compare_text s t) o ∙ rw (is_eq-compare_text s t, h) refl

alike-with_key : (r : DiagnosticRecord) (xs : DiagnosticCollection) → alike r xs ≡ with_key r xs
unfolding alike with_key
alike-with_key r [] = refl
alike-with_key r (x ∷ xs) =
    let rest = alike-with_key r xs in let same = is_eq-compare_records x r in ground arith

-- No record of the list goes strictly before `r`.
abbrev IsFirst : DiagnosticRecord → DiagnosticCollection → Type 0
IsFirst r [] = Unit {0}
IsFirst r (x ∷ xs) = (IsBefore x r → ⊥) × IsFirst r xs

abbrev pub IsSorted : DiagnosticCollection → Type 0
IsSorted [] = Unit {0}
IsSorted (r ∷ rs) = IsFirst r rs × IsSorted rs

IsLeast-IsFirst : (r : DiagnosticRecord) (xs : DiagnosticCollection) → IsLeast r xs → IsFirst r xs
IsLeast-IsFirst r [] l = tt
IsLeast-IsFirst r (x ∷ xs) (l, ls) = (
  (λ h.
      let less = IsBefore-compare_records x r h in
      let z : true ≡ false = rw (precedes, less) at l in cc),
  IsLeast-IsFirst r xs ls,
)

IsOrdered-IsSorted : (xs : DiagnosticCollection) → IsOrdered xs → IsSorted xs
IsOrdered-IsSorted [] s = tt
IsOrdered-IsSorted (r ∷ rs) (l, s) = (IsLeast-IsFirst r rs l, IsOrdered-IsSorted rs s)

-- The sorted collection holds the same records. None of them goes before an earlier one in the order of file, line,
-- column, offset, length, id, severity, operation, message and detail, and records that agree in all of these stand
-- in the order in which they were emitted.
pub sort_deterministic-IsSorted :
    (ds : DiagnosticCollection)
    → IsSorted (sort_deterministic ds)
      × Perm ds (sort_deterministic ds)
      × ((r : DiagnosticRecord) → with_key r (sort_deterministic ds) ≡ with_key r ds)
sort_deterministic-IsSorted ds = (
  IsOrdered-IsSorted (sort_deterministic ds) (sort_deterministic-IsOrdered ds),
  sort_deterministic-Perm ds,
  λ r.
      sym (alike-with_key r (sort_deterministic ds))
      ∙ alike-sort_deterministic r ds
      ∙ alike-with_key r ds,
)
