-- ===== src/Project/Directives/Nesting.antt =====
-- execute of directive_executor.cpp on nested blocks.
use server_engine_v.Common.{
  ℕ, suc, ◌+◌, ◌≤◌, ◌<◌, ◌≡◌, ◌⊎◌, refl, sym, ap, ◌∙◌, subst, arith, Bool, true, false, List, ◌∷◌,
  some, none, ◌==◌, if◌then◌else◌, length, Bool-cases, Option-cases, inl, inr,
}
use server_engine_v.Text.{Text}
use server_engine_v.Status.{success, succeeded}
use server_engine_v.Project.Directives.{
  DirectiveKind, PreprocessingDirective, Outcome, ConditionalFrame, DirectiveExecutor, range_view,
  returns, fail, malformed_operand, active, top_active, directive_conditional_depth_limit,
}
use server_engine_v.Project.Directives.Execution.{
  begin_conditional, begin_active, execute_active, execute, new_frame, push, holds,
}
use server_engine_v.Project.Directives.Stack.{execute_active-SameStack}
use server_engine_v.Project.Directives.Blocks.{
  plain_kind, open_kind, Block, nothing, plain, choose, as_kind, flatten, height, IsOf, run_list,
  chosen, eval,
}
use server_engine_v.Project.Directives.Evaluation.{eval-SameStack, chosen-SameStack}
use server_engine_v.Project.Directives.Skipping.{
  IsAt, with_stack-IsAt, plain_on, open-begin, run_step,
}
use server_engine_v.Project.Directives.Meaning.{
  Carries, then-Carries, SameStack-IsAt, SameStack-active, first-Carries, second-Carries,
}

-- A malformed name fails, with and without the stack.
begin_malformed :
    (e : DirectiveExecutor) (source : Text) (inverted : Bool) (d : PreprocessingDirective)
    → length e.conditionals < directive_conditional_depth_limit
    → active e ≡ true
    → range_view source d.name ≡ none
    → begin_conditional e d source inverted ≡ (e, fail malformed_operand d.file d.name)
unfolding begin_conditional begin_active
begin_malformed e source inverted d room on malformed =
    let space : (length e.conditionals == directive_conditional_depth_limit) ≡ false =
      ground arith in
    rw (space, on, malformed) refl

begin_named :
    (e : DirectiveExecutor) (source : Text) (inverted : Bool) (d : PreprocessingDirective)
    (spelling : Text)
    → length e.conditionals < directive_conditional_depth_limit
    → active e ≡ true
    → range_view source d.name ≡ some spelling
    → begin_conditional e d source inverted
      ≡ (push e (new_frame d true (holds e spelling inverted)), returns success)
unfolding begin_conditional begin_active
begin_named e source inverted d spelling room on named =
    let space : (length e.conditionals == directive_conditional_depth_limit) ≡ false =
      ground arith in
    rw (space, on, named) refl

run_fail :
    (source : Text) (d : PreprocessingDirective) (ds : List PreprocessingDirective)
    (e : DirectiveExecutor) (r : DirectiveExecutor × Outcome)
    → execute e d source ≡ r
    → succeeded r.1.status ≡ false
    → run_list source (d ∷ ds) e ≡ (r.0, false)
unfolding run_list
run_fail source d ds e r h bad = rw (h, bad) refl

run_on :
    (source : Text) (d : PreprocessingDirective) (ds : List PreprocessingDirective)
    (e : DirectiveExecutor) (r : DirectiveExecutor × Outcome)
    → execute e d source ≡ r
    → succeeded r.1.status ≡ true
    → run_list source (d ∷ ds) e ≡ run_list source ds r.0
unfolding run_list
run_on source d ds e r h good = rw (h, good) refl

fail-Carries :
    (source : Text) (d : PreprocessingDirective) (ds after : List PreprocessingDirective)
    (e : DirectiveExecutor) (r : DirectiveExecutor × Outcome)
    → execute e d source ≡ r
    → succeeded r.1.status ≡ false
    → Carries source after (r.0, false) (run_list source (d ∷ ds) e)
unfolding Carries
fail-Carries source d ds after e r h bad =
    let stops = run_fail source d ds e r h bad in
    (
      (λ t. absurd (let z : false ≡ true = t in cc)),
      (λ t. (ap (λ x. x.1) stops, ap (λ x. x.0.strings) stops, ap (λ x. x.0.bindings) stops)),
    )

plain-Carries :
    (source : Text) (d : PreprocessingDirective) (ds : List PreprocessingDirective)
    (e : DirectiveExecutor) (r : DirectiveExecutor × Outcome)
    → execute e d source ≡ r
    → Carries source ds (r.0, succeeded r.1.status) (run_list source (d ∷ ds) e)
unfolding Carries
plain-Carries source d ds e r h = (
  (λ good. run_on source d ds e r h good),
  (λ bad.
      let stops = run_fail source d ds e r h bad in
      (ap (λ x. x.1) stops, ap (λ x. x.0.strings) stops, ap (λ x. x.0.bindings) stops)),
)

module _ {file floor : ℕ} (e : DirectiveExecutor) (at : IsAt file floor e) (source : Text)
    (on : active e ≡ true) (inverted : Bool) (opening middle closing : PreprocessingDirective)
    (of_opening : opening.file ≡ file) (of_middle : middle.file ≡ file)
    (of_closing : closing.file ≡ file) (first second rest : Block) (of_first : IsOf file first)
    (of_second : IsOf file second) (after : List PreprocessingDirective)
    (low_first : suc (length e.conditionals) + height first ≤ directive_conditional_depth_limit)
    (low_second : suc (length e.conditionals) + height second
      ≤ directive_conditional_depth_limit) where
  abbrev opens : PreprocessingDirective
  opens = as_kind (open_kind inverted) opening

  abbrev closes : List PreprocessingDirective
  closes = as_kind DirectiveKind.endif closing ∷ flatten rest after

  abbrev goes_on : List PreprocessingDirective
  goes_on = as_kind DirectiveKind.else_branch middle ∷ flatten second closes

  abbrev Runs : Block → List PreprocessingDirective → Type 0
  Runs block ds =
      (frame : ConditionalFrame)
      → frame.branch_active ≡ true
      → Carries source ds (eval source block (push e frame))
          (run_list source (flatten block ds) (push e frame))

  named-Carries :
      (spelling : Text)
      → range_view source opening.name ≡ some spelling
      → Runs first goes_on
      → Runs second closes
      → Carries source
          (flatten rest after)
          (if holds e spelling inverted then eval source first e else eval source second e)
          (run_list source (opens ∷ flatten first goes_on) e)
  named-Carries spelling named run_first run_second =
      let frame : Bool → ConditionalFrame = λ b. new_frame opens true b in
      let other = record (frame false) { else_seen = true; branch_active = true } in
      let opened : (b : Bool)
          → holds e spelling inverted ≡ b
          → run_list source (opens ∷ flatten first goes_on) e
            ≡ run_list source (flatten first goes_on) (push e (frame b)) =
        λ b is. run_step source opens (flatten first goes_on) e (push e (frame b)) (
          open-begin e at source inverted opening of_opening
          ∙ begin_named e source inverted opens spelling (omega arith) on named
          ∙ ap (λ c. (push e (frame c), returns success)) is) in
      elim (Bool-cases (holds e spelling inverted)) [
        | inl yes_branch ↦ rw yes_branch (
            subst (Carries source (flatten rest after) (eval source first e))
              (sym (opened true yes_branch))
              (first-Carries e at source (frame true) of_opening refl middle closing of_middle
                of_closing first second rest of_first of_second after low_first low_second refl refl
                (run_first (frame true) refl)))
        | inr no_branch ↦ rw no_branch (
            subst (Carries source (flatten rest after) (eval source second e))
              (sym (opened false no_branch))
              (second-Carries e at source (frame false) of_opening refl middle closing of_middle
                of_closing first second rest of_first of_second after low_first low_second refl
                (run_second other refl)))
      ]

  choice-Carries :
      Runs first goes_on
      → Runs second closes
      → Carries source
          (flatten rest after)
          (chosen e inverted
            (range_view source opening.name)
            (eval source first e)
            (eval source second e))
          (run_list source (opens ∷ flatten first goes_on) e)
  unfolding chosen
  choice-Carries run_first run_second = elim (Option-cases (range_view source opening.name)) [
    | inl malformed ↦ rw malformed (
        fail-Carries source opens (flatten first goes_on) (flatten rest after) e
          (e, fail malformed_operand opening.file opening.name)
          (open-begin e at source inverted opening of_opening
            ∙ begin_malformed e source inverted opens (omega arith) on malformed)
          (unfold fail succeeded in refl))
    | inr (spelling, named) ↦ rw named (named-Carries spelling named run_first run_second)
  ]

-- Whatever the directives of a block, nested to any depth that the limit allows, they do what the block means.
block-Carries :
    (source : Text) (block : Block) (after : List PreprocessingDirective) {file floor : ℕ}
    (e : DirectiveExecutor)
    → IsAt file floor e
    → IsOf file block
    → length e.conditionals + height block ≤ directive_conditional_depth_limit
    → active e ≡ true
    → Carries source after (eval source block e) (run_list source (flatten block after) e)
unfolding flatten eval
block-Carries source nothing after e at of depth on =
    unfold Carries in ((λ t. refl), (λ t. absurd (let z : true ≡ false = t in cc)))
block-Carries source (plain kind d rest) after e at (of, more) depth on =
    let d' = as_kind (plain_kind kind) d in
    let one = execute_active (plain_kind kind) e d' source in
    let same = execute_active-SameStack (plain_kind kind) e d' source in
    then-Carries source rest after (one.0, succeeded one.1.status)
      (run_list source (d' ∷ flatten rest after) e)
      (plain-Carries source d' (flatten rest after) e one (plain_on e at source kind d of on))
      (λ good.
        block-Carries source rest after one.0 (SameStack-IsAt e one.0 at same) more
          (subst (λ l. length l + height rest ≤ directive_conditional_depth_limit) (sym same.0)
            depth)
          (SameStack-active e one.0 same on))
block-Carries source (choose inverted opening middle closing first second rest) after {file = file}
      {floor = floor} e at (o, m, c, f, s, r) depth on =
    let d' = as_kind (open_kind inverted) opening in
    let low = at.low in
    let up : floor ≤ suc (length e.conditionals) = omega arith in
    let one =
      chosen e inverted (range_view source opening.name) (eval source first e)
        (eval source second e) in
    let same =
      chosen-SameStack e inverted (range_view source opening.name) (eval source first e)
        (eval source second e) (eval-SameStack source first e) (eval-SameStack source second e) in
    then-Carries source rest after one _
      (choice-Carries e at source on inverted opening middle closing o m c first second rest f s
        after (omega arith) (omega arith)
        (λ frame on'.
          block-Carries source first _ (push e frame)
            (with_stack-IsAt e (frame ∷ e.conditionals) at up) f (omega arith)
            (unfold active top_active in on'))
        (λ frame on'.
          block-Carries source second _ (push e frame)
            (with_stack-IsAt e (frame ∷ e.conditionals) at up) s (omega arith)
            (unfold active top_active in on')))
      (λ good.
        block-Carries source rest after one.0 (SameStack-IsAt e one.0 at same) r
          (subst (λ l. length l + height rest ≤ directive_conditional_depth_limit) (sym same.0)
            (omega arith))
          (SameStack-active e one.0 same on))

-- In an active region, the directives of nested blocks of one file, in the order of the text, do what the blocks
-- mean, where the conditionals stay within the depth limit: either the blocks succeed and the directives that follow
-- go on from their result, or the blocks fail, execute fails, and the strings and the bindings are those of the blocks.
pub run_list-eval :
    (source : Text) (block : Block) (after : List PreprocessingDirective) {file floor : ℕ}
    (e : DirectiveExecutor)
    → IsAt file floor e
    → IsOf file block
    → length e.conditionals + height block ≤ directive_conditional_depth_limit
    → active e ≡ true
    → (((eval source block e).1 ≡ true)
        × (run_list source (flatten block after) e ≡ run_list source after (eval source block e).0))
      ⊎ (((eval source block e).1 ≡ false)
          × ((run_list source (flatten block after) e).1 ≡ false)
          × ((run_list source (flatten block after) e).0.strings ≡ (eval source block e).0.strings)
          × ((run_list source (flatten block after) e).0.bindings
              ≡ (eval source block e).0.bindings))
unfolding Carries
run_list-eval source block after e at of depth on =
    let carried = block-Carries source block after e at of depth on in
    elim (Bool-cases (eval source block e).1) [
      | inl good ↦ inl (good, carried.0 good)
      | inr bad ↦ let failed = carried.1 bad in inr (bad, failed.0, failed.1, failed.2)
    ]
