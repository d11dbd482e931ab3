-- ===== src/Project/Directives/Evaluation.antt =====
-- The meaning of blocks of directives does not depend on the stack of conditionals, and does not change it.
use server_engine_v.Common.{
  ◌≡◌, refl, ◌∙◌, Bool, List, Option, some, none, ◌==◌, Bool-cases, inl, inr,
}
use server_engine_v.Text.{Text}
use server_engine_v.Status.{succeeded}
use server_engine_v.Project.StringTable.{contains}
use server_engine_v.Project.Directives.{
  PreprocessingDirective, ConditionalFrame, DirectiveExecutor, range_view, intern_range,
}
use server_engine_v.Project.Directives.Execution.{
  execute_active, execute_define, undefine_view, finish_define, holds,
}
use server_engine_v.Project.Directives.Stack.{SameStack, execute_active-SameStack}
use server_engine_v.Project.Directives.Blocks.{
  PlainKind, plain_kind, Block, nothing, plain, choose, as_kind, with_stack, on_stack, chosen, eval,
}

-- The directives of an active region do not look at the stack.
execute_define_stack :
    (e : DirectiveExecutor) (d : PreprocessingDirective) (source : Text)
    (frames : List ConditionalFrame)
    → execute_define (with_stack e frames) d source ≡ on_stack (execute_define e d source) frames
unfolding execute_define finish_define
execute_define_stack e d source frames =
    let named = intern_range source d.name e.strings in
    elim (Bool-cases (succeeded named.2)) [
      | inr bad ↦ rw bad refl
      | inl good ↦ elim (Bool-cases (d.replacement.range_length == 0)) [
        | inl short ↦ rw (good, short) refl
        | inr long ↦ elim (Bool-cases (succeeded (intern_range source d.replacement named.0).2)) [
          | inr bad ↦ rw (good, long, bad) refl
          | inl fine ↦ rw (good, long, fine) refl
        ]
      ]
    ]

undefine_view_stack :
    (e : DirectiveExecutor) (d : PreprocessingDirective) (o : Option Text)
    (frames : List ConditionalFrame)
    → undefine_view (with_stack e frames) d o ≡ on_stack (undefine_view e d o) frames
unfolding undefine_view
undefine_view_stack e d none frames = refl
undefine_view_stack e d (some spelling) frames =
    elim (Bool-cases (server_engine_v.Project.StringTable.find e.strings spelling == 0)) [
      | inl absent ↦ rw absent refl
      | inr present ↦ rw present refl
    ]

execute_active_stack :
    (kind : PlainKind) (e : DirectiveExecutor) (d : PreprocessingDirective) (source : Text)
    (frames : List ConditionalFrame)
    → execute_active (plain_kind kind) (with_stack e frames) d source
      ≡ on_stack (execute_active (plain_kind kind) e d source) frames
unfolding execute_active
execute_active_stack PlainKind.define e d source frames = execute_define_stack e d source frames
execute_active_stack PlainKind.undef e d source frames =
    undefine_view_stack e d (range_view source d.name) frames
execute_active_stack PlainKind.include e d source frames = refl
execute_active_stack PlainKind.line e d source frames = refl
execute_active_stack PlainKind.error e d source frames = refl
execute_active_stack PlainKind.pragma e d source frames = refl
execute_active_stack PlainKind.unknown e d source frames = refl
execute_active_stack PlainKind.invalid e d source frames = refl

chosen_stack :
    (e : DirectiveExecutor) (inverted : Bool) (o : Option Text)
    (first second : DirectiveExecutor × Bool) (frames : List ConditionalFrame)
    → chosen (with_stack e frames) inverted o (on_stack first frames) (on_stack second frames)
      ≡ on_stack (chosen e inverted o first second) frames
unfolding chosen holds
chosen_stack e inverted none first second frames = refl
chosen_stack e inverted (some spelling) first second frames =
    elim (Bool-cases (holds e spelling inverted)) [
      | inl yes_branch ↦ rw yes_branch refl
      | inr no_branch ↦ rw no_branch refl
    ]

pub eval_stack :
    (source : Text) (block : Block) (e : DirectiveExecutor) (frames : List ConditionalFrame)
    → eval source block (with_stack e frames) ≡ on_stack (eval source block e) frames
unfolding eval
eval_stack source nothing e frames = refl
eval_stack source (plain kind d rest) e frames =
    let one = execute_active (plain_kind kind) e (as_kind (plain_kind kind) d) source in
    rw (execute_active_stack kind e (as_kind (plain_kind kind) d) source frames)
      (elim (Bool-cases (succeeded one.1.status)) [
        | inl good ↦ rw good (eval_stack source rest one.0 frames)
        | inr bad ↦ rw bad refl
      ])
eval_stack source (choose inverted opening middle closing first second rest) e frames =
    let left = eval source first e in
    let right = eval source second e in
    let one = chosen e inverted (range_view source opening.name) left right in
    rw
      (
        eval_stack source first e frames,
        eval_stack source second e frames,
        chosen_stack e inverted (range_view source opening.name) left right frames,
      )
      (elim (Bool-cases one.1) [
        | inl good ↦ rw good (eval_stack source rest one.0 frames)
        | inr bad ↦ rw bad refl
      ])

SameStack-trans :
    (e e' e'' : DirectiveExecutor) → SameStack e e' → SameStack e' e'' → SameStack e e''
SameStack-trans e e' e'' (c, f) (c', f') = (c' ∙ c, f' ∙ f)

pub chosen-SameStack :
    (e : DirectiveExecutor) (inverted : Bool) (o : Option Text)
    (first second : DirectiveExecutor × Bool)
    → SameStack e first.0
    → SameStack e second.0
    → SameStack e (chosen e inverted o first second).0
unfolding chosen
chosen-SameStack e inverted none first second p q = (refl, refl)
chosen-SameStack e inverted (some spelling) first second p q =
    elim (Bool-cases (holds e spelling inverted)) [
      | inl first_branch ↦ rw first_branch p
      | inr second_branch ↦ rw second_branch q
    ]

pub eval-SameStack :
    (source : Text) (block : Block) (e : DirectiveExecutor) → SameStack e (eval source block e).0
unfolding eval
eval-SameStack source nothing e = (refl, refl)
eval-SameStack source (plain kind d rest) e =
    let one = execute_active (plain_kind kind) e (as_kind (plain_kind kind) d) source in
    let same = execute_active-SameStack (plain_kind kind) e (as_kind (plain_kind kind) d) source in
    elim (Bool-cases (succeeded one.1.status)) [
      | inl good ↦ rw good (
          SameStack-trans e one.0 (eval source rest one.0).0 same
            (eval-SameStack source rest one.0))
      | inr bad ↦ rw bad same
    ]
eval-SameStack source (choose inverted opening middle closing first second rest) e =
    let one =
      chosen e inverted (range_view source opening.name) (eval source first e)
        (eval source second e) in
    let same =
      chosen-SameStack e inverted (range_view source opening.name) (eval source first e)
        (eval source second e) (eval-SameStack source first e) (eval-SameStack source second e) in
    elim (Bool-cases one.1) [
      | inl good ↦ rw good (
          SameStack-trans e one.0 (eval source rest one.0).0 same
            (eval-SameStack source rest one.0))
      | inr bad ↦ rw bad same
    ]
