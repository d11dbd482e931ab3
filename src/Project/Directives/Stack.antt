-- ===== src/Project/Directives/Stack.antt =====
-- The stack of conditionals of directive_executor.cpp across the files that include one another.
use server_engine_v.Common.{
  ℕ, ◌≡◌, refl, sym, ap, ◌∙◌, subst, arith, Bool, true, false, not, ◌&&◌, ◌||◌, List, [], ◌∷◌, ◌++◌,
  Option, some, none, leb, ◌==◌, length, Bool-cases, inl, inr,
}
use server_engine_v.Text.{Text}
use server_engine_v.Project.Directives.{
  DirectiveKind, PreprocessingDirective, ConditionalFrame, FileEntryFrame, DirectiveExecutor,
  active, directive_conditional_depth_limit, range_view,
}
use server_engine_v.Project.Directives.Execution.{
  begin_conditional, begin_active, take_else, take_endif, execute_active, execute_plain,
  execute_kind, execute_define, undefine_view, finish_define, push,
}

-- The current entry is the file's, with the base as its floor, and the base is below the open conditionals.
pub record IsInside (base : List ConditionalFrame) (entries : List FileEntryFrame) (file : ℕ)
    (e : DirectiveExecutor) : Type 0 where
  pub entered :
      e.file_entries ≡ record { entry_file = file; conditional_floor = length base } ∷ entries
  pub inner : List ConditionalFrame
  pub above : e.conditionals ≡ inner ++ base

-- What stays, whatever the directive: the entries, and the stack but for the bindings and the strings.
abbrev pub SameStack : DirectiveExecutor → DirectiveExecutor → Type 0
SameStack e e' = (e'.conditionals ≡ e.conditionals) × (e'.file_entries ≡ e.file_entries)

pub SameStack-IsInside :
    {base : List ConditionalFrame} {entries : List FileEntryFrame} {file : ℕ}
    (e e' : DirectiveExecutor)
    → IsInside base entries file e
    → SameStack e e'
    → IsInside base entries file e'
SameStack-IsInside e e' i (c, f) = record {
  entered = f ∙ i.entered;
  inner = i.inner;
  above = c ∙ i.above;
}

undefine_view-SameStack :
    (e : DirectiveExecutor) (d : PreprocessingDirective) (o : Option Text)
    → SameStack e (undefine_view e d o).0
unfolding undefine_view
undefine_view-SameStack e d none = (refl, refl)
undefine_view-SameStack e d (some spelling) = (ground arith, ground arith)

execute_define-SameStack :
    (e : DirectiveExecutor) (d : PreprocessingDirective) (source : Text)
    → SameStack e (execute_define e d source).0
unfolding execute_define finish_define
execute_define-SameStack e d source = (ground arith, ground arith)

pub execute_active-SameStack :
    (kind : DirectiveKind) (e : DirectiveExecutor) (d : PreprocessingDirective) (source : Text)
    → SameStack e (execute_active kind e d source).0
unfolding execute_active
execute_active-SameStack DirectiveKind.define e d source = execute_define-SameStack e d source
execute_active-SameStack DirectiveKind.undef e d source =
    undefine_view-SameStack e d (range_view source d.name)
execute_active-SameStack DirectiveKind.include e d source = (refl, refl)
execute_active-SameStack DirectiveKind.line e d source = (refl, refl)
execute_active-SameStack DirectiveKind.error e d source = (refl, refl)
execute_active-SameStack DirectiveKind.pragma e d source = (refl, refl)
execute_active-SameStack DirectiveKind.unknown e d source = (refl, refl)
execute_active-SameStack DirectiveKind.invalid e d source = (refl, refl)
execute_active-SameStack DirectiveKind.if_expression e d source = (refl, refl)
execute_active-SameStack DirectiveKind.ifdef e d source = (refl, refl)
execute_active-SameStack DirectiveKind.ifndef e d source = (refl, refl)
execute_active-SameStack DirectiveKind.elif e d source = (refl, refl)
execute_active-SameStack DirectiveKind.else_branch e d source = (refl, refl)
execute_active-SameStack DirectiveKind.endif e d source = (refl, refl)

module _ (base : List ConditionalFrame) (entries : List FileEntryFrame) (file : ℕ) where
  abbrev Inside : DirectiveExecutor → Type 0
  Inside e = IsInside base entries file e

  push-IsInside :
      (e : DirectiveExecutor) (frame : ConditionalFrame) → Inside e → Inside (push e frame)
  push-IsInside e frame i = record {
    entered = i.entered;
    inner = frame ∷ i.inner;
    above = ap (λ l. frame ∷ l) i.above;
  }

  begin_active-IsInside :
      (e : DirectiveExecutor) (d : PreprocessingDirective) (inverted : Bool) (o : Option Text)
      → Inside e
      → Inside (begin_active e d inverted o).0
  unfolding begin_active
  begin_active-IsInside e d inverted none i = i
  begin_active-IsInside e d inverted (some spelling) i = push-IsInside e _ i

  begin_conditional-IsInside :
      (e : DirectiveExecutor) (d : PreprocessingDirective) (source : Text) (inverted : Bool)
      → Inside e
      → Inside (begin_conditional e d source inverted).0
  unfolding begin_conditional
  begin_conditional-IsInside e d source inverted i =
      elim (Bool-cases (length e.conditionals == directive_conditional_depth_limit)) [
        | inl full ↦ rw full i
        | inr room ↦ elim (Bool-cases (active e)) [
          | inl on ↦ rw (room, on) (begin_active-IsInside e d inverted (range_view source d.name) i)
          | inr off ↦ rw (room, off) (push-IsInside e _ i)
        ]
      ]

  -- With no conditional open above the floor, #else and #endif are refused.
  take_else-base :
      (e : DirectiveExecutor) (d : PreprocessingDirective) (frames : List ConditionalFrame)
      → (take_else e d (length frames) frames).0 ≡ e
  unfolding take_else
  take_else-base e d [] = refl
  take_else-base e d (frame ∷ frames) =
      let low : leb (length (frame ∷ frames)) (length (frame ∷ frames)) ≡ true = ground arith in
      rw low refl

  take_endif-base :
      (e : DirectiveExecutor) (d : PreprocessingDirective) (frames : List ConditionalFrame)
      → (take_endif e d (length frames) frames).0 ≡ e
  unfolding take_endif
  take_endif-base e d [] = refl
  take_endif-base e d (frame ∷ frames) =
      let low : leb (length (frame ∷ frames)) (length (frame ∷ frames)) ≡ true = ground arith in
      rw low refl

  take_else-IsInside :
      (e : DirectiveExecutor) (d : PreprocessingDirective) (inner : List ConditionalFrame)
      → Inside e
      → e.conditionals ≡ inner ++ base
      → Inside (take_else e d (length base) (inner ++ base)).0
  take_else-IsInside e d [] i above = subst Inside (sym (take_else-base e d base)) i
  take_else-IsInside e d (frame ∷ inner) i above =
      unfold take_else in
      elim (Bool-cases (
        leb (length (frame ∷ (inner ++ base))) (length base) || not (frame.frame_file == d.file))) [
          | inl unmatched ↦ rw unmatched i
          | inr matched ↦ elim (Bool-cases frame.else_seen) [
            | inl twice ↦ rw (matched, twice) i
            | inr first ↦
                rw (matched, first)
                  record {
                    entered = i.entered;
                    inner =
                        record frame {
                          else_seen = true;
                          branch_active = frame.parent_active && not frame.condition;
                        }
                        ∷ inner;
                    above = refl;
                  }
          ]
        ]

  take_endif-IsInside :
      (e : DirectiveExecutor) (d : PreprocessingDirective) (inner : List ConditionalFrame)
      → Inside e
      → e.conditionals ≡ inner ++ base
      → Inside (take_endif e d (length base) (inner ++ base)).0
  take_endif-IsInside e d [] i above = subst Inside (sym (take_endif-base e d base)) i
  take_endif-IsInside e d (frame ∷ inner) i above =
      unfold take_endif in
      elim (Bool-cases (
        leb (length (frame ∷ (inner ++ base))) (length base) || not (frame.frame_file == d.file))) [
          | inl unmatched ↦ rw unmatched i
          | inr matched ↦ rw matched record { entered = i.entered; inner = inner; above = refl }
        ]

  execute_plain-IsInside :
      (kind : DirectiveKind) (e : DirectiveExecutor) (d : PreprocessingDirective) (source : Text)
      → Inside e
      → Inside (execute_plain kind e d source).0
  execute_plain-IsInside kind e d source i = elim (Bool-cases (active e)) [
    | inl on ↦ rw on (
        SameStack-IsInside e (execute_active kind e d source).0 i
          (execute_active-SameStack kind e d source))
    | inr off ↦ rw off i
  ]

  pub execute_kind-IsInside :
      (kind : DirectiveKind) (e : DirectiveExecutor) (d : PreprocessingDirective) (source : Text)
      → Inside e
      → Inside (execute_kind kind e d source (length base)).0
  unfolding execute_kind
  execute_kind-IsInside DirectiveKind.ifdef e d source i =
      begin_conditional-IsInside e d source false i
  execute_kind-IsInside DirectiveKind.ifndef e d source i =
      begin_conditional-IsInside e d source true i
  execute_kind-IsInside DirectiveKind.else_branch e d source i =
      subst (λ frames. Inside (take_else e d (length base) frames).0) (sym i.above)
        (take_else-IsInside e d i.inner i i.above)
  execute_kind-IsInside DirectiveKind.endif e d source i =
      subst (λ frames. Inside (take_endif e d (length base) frames).0) (sym i.above)
        (take_endif-IsInside e d i.inner i i.above)
  execute_kind-IsInside DirectiveKind.if_expression e d source i = i
  execute_kind-IsInside DirectiveKind.elif e d source i = i
  execute_kind-IsInside DirectiveKind.define e d source i =
      execute_plain-IsInside DirectiveKind.define e d source i
  execute_kind-IsInside DirectiveKind.undef e d source i =
      execute_plain-IsInside DirectiveKind.undef e d source i
  execute_kind-IsInside DirectiveKind.include e d source i =
      execute_plain-IsInside DirectiveKind.include e d source i
  execute_kind-IsInside DirectiveKind.line e d source i =
      execute_plain-IsInside DirectiveKind.line e d source i
  execute_kind-IsInside DirectiveKind.error e d source i =
      execute_plain-IsInside DirectiveKind.error e d source i
  execute_kind-IsInside DirectiveKind.pragma e d source i =
      execute_plain-IsInside DirectiveKind.pragma e d source i
  execute_kind-IsInside DirectiveKind.unknown e d source i =
      execute_plain-IsInside DirectiveKind.unknown e d source i
  execute_kind-IsInside DirectiveKind.invalid e d source i =
      execute_plain-IsInside DirectiveKind.invalid e d source i
