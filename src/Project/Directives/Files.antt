-- ===== src/Project/Directives/Files.antt =====
-- Runs of directive_executor.cpp over a file and the files that it includes.
use server_engine_v.Common.{
  ℕ, ◌≡◌, refl, sym, ap, ◌∙◌, subst, arith, Bool, true, false, not, ◌||◌, List, [], ◌∷◌, ◌++◌, some,
  ltb, ◌==◌, if◌then◌else◌, length, length-append, Bool-cases, Option-cases, inl, inr,
}
use server_engine_v.Text.{Text}
use server_engine_v.Status.{succeeded}
use server_engine_v.Project.Directives.{
  PreprocessingDirective, ErrorKind, SourceRange, Outcome, ConditionalFrame, FileEntryFrame,
  DirectiveExecutor, fail, current_file_entry, floor_of, enter_file, no_range, file_entry_mismatch,
  unterminated_conditional,
}
use server_engine_v.Project.Directives.Execution.{
  execute_at, execute, close_file, leave_at, finish_at, finish_file,
}
use server_engine_v.Project.Directives.Stack.{IsInside, SameStack-IsInside, execute_kind-IsInside}

-- the directives of a file with its text, and the files that it includes where it includes them
pub data FileRun : Type 0 where
  ends : FileRun
  directive : PreprocessingDirective → Text → FileRun → FileRun
  included : ℕ → FileRun → FileRun → FileRun

-- The frontend stops at the first call that does not succeed.
unfoldable pub run_file : FileRun → DirectiveExecutor → DirectiveExecutor × Bool
unfolding execute enter_file finish_file
run_file ends e = (e, true)
run_file (directive d source rest) e =
    let one = execute e d source in
    let more = run_file rest one.0 in if succeeded one.1.status then more else (one.0, false)
run_file (included file body rest) e =
    let start = enter_file e file in
    let inside = run_file body start.0 in
    let left = finish_file inside.0 file in
    let more = run_file rest left.0 in
    if not (succeeded start.1)
    then (start.0, false)
    else if not inside.1
    then (inside.0, false)
    else if not (succeeded left.1.status)
    then (left.0, false)
    else more

module _ (base : List ConditionalFrame) (entries : List FileEntryFrame) (file : ℕ) where
  floor_of-base :
      (of depth floor : ℕ)
      → floor_of (record { entry_file = file; conditional_floor = length base } ∷ entries) of depth
        ≡ some floor
      → floor ≡ length base
  unfolding floor_of
  floor_of-base of depth floor e = ground arith

  execute-IsInside :
      (e : DirectiveExecutor) (d : PreprocessingDirective) (source : Text)
      → IsInside base entries file e
      → IsInside base entries file (execute e d source).0
  unfolding execute execute_at current_file_entry
  execute-IsInside e d source i =
      elim (Option-cases (floor_of e.file_entries d.file (length e.conditionals))) [
        | inl none_here ↦ rw none_here i
        | inr (floor, here) ↦
            let at_base : floor ≡ length base =
              floor_of-base d.file (length e.conditionals) floor
                (sym (ap (λ l. floor_of l d.file (length e.conditionals)) i.entered) ∙ here) in
            rw (here, at_base) (execute_kind-IsInside base entries file d.kind e d source i)
      ]

  no_inner :
      (e : DirectiveExecutor) (inner : List ConditionalFrame)
      → e.conditionals ≡ inner ++ base
      → length e.conditionals ≡ length base
      → e.conditionals ≡ base
  no_inner e [] above n = above
  no_inner e (frame ∷ inner) above n =
      absurd (omega (arith, ap length above, length-append (frame ∷ inner) base))

  abbrev IsLeft : DirectiveExecutor × Outcome → Type 0
  IsLeft r = succeeded r.1.status ≡ true → (r.0.conditionals ≡ base) × (r.0.file_entries ≡ entries)

  failed_IsLeft :
      (e : DirectiveExecutor) (kind : ErrorKind) (of : ℕ) (at : SourceRange)
      → IsLeft (e, fail kind of at)
  unfolding fail succeeded
  failed_IsLeft e kind of at h = cc

  leave_at-IsLeft :
      (e : DirectiveExecutor) (stack : List FileEntryFrame)
      → stack ≡ record { entry_file = file; conditional_floor = length base } ∷ entries
      → e.conditionals ≡ base
      → IsLeft (leave_at e file stack)
  leave_at-IsLeft e stack entered same =
      subst (λ l. IsLeft (leave_at e file l)) (sym entered) (unfold leave_at in λ h. (same, refl))

  close_file-IsLeft :
      (e : DirectiveExecutor) (frames : List ConditionalFrame)
      → frames ≡ e.conditionals
      → IsInside base entries file e
      → IsLeft (close_file e file (length base) frames)
  unfolding close_file
  close_file-IsLeft e [] same i = elim (Bool-cases (0 == length base)) [
    | inl level ↦ rw level (
        leave_at-IsLeft e e.file_entries i.entered (
          no_inner e i.inner i.above (
            let n = ap length same in
            let m : ◌≡◌ {A = ℕ} 0 (length base) = ground arith in sym n ∙ m)))
    | inr other ↦ rw other (failed_IsLeft e file_entry_mismatch file no_range)
  ]
  close_file-IsLeft e (opening ∷ frames) same i =
      elim (Bool-cases (ltb (length base) (length (opening ∷ frames)))) [
        | inl above ↦
            rw above
              (failed_IsLeft e unterminated_conditional opening.frame_file opening.frame_source)
        | inr below ↦ elim (Bool-cases (length (opening ∷ frames) == length base)) [
          | inl level ↦
              rw (below, level)
                (leave_at-IsLeft e e.file_entries i.entered (
                  no_inner e i.inner i.above (
                    let n = ap length same in
                    let m : length (opening ∷ frames) ≡ length base = ground arith in sym n ∙ m)))
          | inr other ↦ rw (below, other) (failed_IsLeft e file_entry_mismatch file no_range)
        ]
      ]

  -- A file that is left had closed all its conditionals.
  finish_file-IsLeft :
      (e : DirectiveExecutor) → IsInside base entries file e → IsLeft (finish_file e file)
  unfolding finish_file finish_at current_file_entry
  finish_file-IsLeft e i =
      elim (Option-cases (floor_of e.file_entries file (length e.conditionals))) [
        | inl none_here ↦ rw none_here (failed_IsLeft e file_entry_mismatch file no_range)
        | inr (floor, here) ↦
            let at_base : floor ≡ length base =
              floor_of-base file (length e.conditionals) floor
                (sym (ap (λ l. floor_of l file (length e.conditionals)) i.entered) ∙ here) in
            rw (here, at_base) (close_file-IsLeft e e.conditionals refl i)
      ]

enter_file-IsInside :
    (e : DirectiveExecutor) (file : ℕ)
    → succeeded (enter_file e file).1 ≡ true
    → IsInside e.conditionals e.file_entries file (enter_file e file).0
unfolding enter_file succeeded
enter_file-IsInside e file h = elim (Bool-cases (file == 0 || length e.file_entries == 256)) [
  | inl refused ↦ absurd (let z : false ≡ true = rw refused at h in cc)
  | inr entered ↦ rw entered record { entered = refl; inner = []; above = refl }
]

-- A run through an included file that succeeds has entered it, run it and left it.
included_parts :
    (file : ℕ) (body rest : FileRun) (e : DirectiveExecutor)
    → (run_file (included file body rest) e).1 ≡ true
    → (succeeded (enter_file e file).1 ≡ true)
      × ((run_file body (enter_file e file).0).1 ≡ true)
      × (succeeded (finish_file (run_file body (enter_file e file).0).0 file).1.status ≡ true)
      × (run_file (included file body rest) e
          ≡ run_file rest (finish_file (run_file body (enter_file e file).0).0 file).0)
unfolding run_file
included_parts file body rest e h =
    let start = enter_file e file in
    let inside = run_file body start.0 in
    let left = finish_file inside.0 file in
    elim (Bool-cases (succeeded start.1)) [
      | inr bad ↦ absurd (let z : false ≡ true = rw bad at h in cc)
      | inl good ↦ elim (Bool-cases inside.1) [
        | inr bad ↦ absurd (let z : false ≡ true = rw (good, bad) at h in cc)
        | inl ran ↦ elim (Bool-cases (succeeded left.1.status)) [
          | inr bad ↦ absurd (let z : false ≡ true = rw (good, ran, bad) at h in cc)
          | inl done ↦ (good, ran, done, rw (good, ran, done) refl)
        ]
      ]
    ]

-- While a file runs, the conditionals that were open when it was entered stay as they were.
run_file-IsInside :
    (run : FileRun) (base : List ConditionalFrame) (entries : List FileEntryFrame) (file : ℕ)
    (e : DirectiveExecutor)
    → IsInside base entries file e
    → (run_file run e).1 ≡ true
    → IsInside base entries file (run_file run e).0
unfolding run_file
run_file-IsInside ends base entries file e i h = i
run_file-IsInside (directive d source rest) base entries file e i h =
    elim (Bool-cases (succeeded (execute e d source).1.status)) [
      | inl good ↦ rw good (
          run_file-IsInside rest base entries file (execute e d source).0
            (execute-IsInside base entries file e d source i) (rw good at h))
      | inr bad ↦ absurd (let z : false ≡ true = rw bad at h in cc)
    ]
run_file-IsInside (included of body rest) base entries file e i h =
    let parts = included_parts of body rest e h in
    let start = enter_file e of in
    let inside = run_file body start.0 in
    let left = finish_file inside.0 of in
    let within =
      run_file-IsInside body e.conditionals e.file_entries of start.0
        (enter_file-IsInside e of parts.0) parts.1 in
    let same = finish_file-IsLeft e.conditionals e.file_entries of inside.0 within parts.2 in
    subst (λ r. IsInside base entries file r.0) (sym parts.3)
      (run_file-IsInside rest base entries file left.0 (SameStack-IsInside e left.0 i same)
        (sym (ap (λ r. r.1) parts.3) ∙ h))

-- An included file that runs to its end leaves the open conditionals and the file entries as they were, whatever
-- its directives are and whatever it includes itself.
pub included-restores :
    (file : ℕ) (body : FileRun) (e : DirectiveExecutor)
    → (run_file (included file body ends) e).1 ≡ true
    → ((run_file (included file body ends) e).0.conditionals ≡ e.conditionals)
      × ((run_file (included file body ends) e).0.file_entries ≡ e.file_entries)
unfolding run_file
included-restores file body e h =
    let parts = included_parts file body ends e h in
    let start = enter_file e file in
    let within =
      run_file-IsInside body e.conditionals e.file_entries file start.0
        (enter_file-IsInside e file parts.0) parts.1 in
    let same =
      finish_file-IsLeft e.conditionals e.file_entries file (run_file body start.0).0 within
        parts.2 in
    let at_end = parts.3 in
    (ap (λ r. r.0.conditionals) at_end ∙ same.0, ap (λ r. r.0.file_entries) at_end ∙ same.1)
