-- ===== src/Project/Directives/Meaning.antt =====
-- What execute of directive_executor.cpp does to the directives of nested blocks.
use server_engine_v.Common.{
  ℕ, suc, ◌+◌, ◌≤◌, ◌≡◌, refl, sym, ap, ◌∙◌, subst, arith, Bool, true, false, not, ◌&&◌, List, ◌∷◌,
  if◌then◌else◌, length, Bool-cases, inl, inr,
}
use server_engine_v.Text.{Text}
use server_engine_v.Project.Directives.{
  DirectiveKind, PreprocessingDirective, ConditionalFrame, DirectiveExecutor, active, top_active,
  directive_conditional_depth_limit,
}
use server_engine_v.Project.Directives.Execution.{push}
use server_engine_v.Project.Directives.Stack.{SameStack}
use server_engine_v.Project.Directives.Blocks.{
  Block, as_kind, flatten, height, IsOf, run_list, with_stack, eval,
}
use server_engine_v.Project.Directives.Evaluation.{eval_stack, eval-SameStack}
use server_engine_v.Project.Directives.Skipping.{
  IsAt, with_stack-IsAt, else_step, endif_step, run_step, skip_block,
}

-- The second result goes on from the first with the directives that follow, or fails with it.
unfoldable pub Carries :
    Text
    → List PreprocessingDirective
    → DirectiveExecutor × Bool
    → DirectiveExecutor × Bool
    → Type 0
Carries source after r r' =
    (r.1 ≡ true → r' ≡ run_list source after r.0)
    × (r.1 ≡ false → (r'.1 ≡ false) × (r'.0.strings ≡ r.0.strings) × (r'.0.bindings ≡ r.0.bindings))

pub then-Carries :
    (source : Text) (rest : Block) (after : List PreprocessingDirective)
    (one r' : DirectiveExecutor × Bool)
    → Carries source (flatten rest after) one r'
    → (one.1 ≡ true
        → Carries source after
            (eval source rest one.0)
            (run_list source (flatten rest after) one.0))
    → Carries source after (if one.1 then eval source rest one.0 else (one.0, false)) r'
unfolding Carries
then-Carries source rest after one r' h k = elim (Bool-cases one.1) [
  | inl good ↦
      rw good (subst (Carries source after (eval source rest one.0)) (sym (h.0 good)) (k good))
  | inr bad ↦ rw bad ((λ t. absurd (let z : false ≡ true = t in cc)), (λ t. h.1 bad))
]

pub SameStack-IsAt :
    {file floor : ℕ} (e e' : DirectiveExecutor)
    → IsAt file floor e
    → SameStack e e'
    → IsAt file floor e'
SameStack-IsAt {floor = floor} e e' at (c, f) = record {
  valid_file = at.valid_file;
  outer = at.outer;
  entered = f ∙ at.entered;
  low = subst (λ l. floor ≤ length l) (sym c) at.low;
}

pub SameStack-active :
    (e e' : DirectiveExecutor) → SameStack e e' → active e ≡ true → active e' ≡ true
unfolding active
SameStack-active e e' (c, f) on = ap top_active c ∙ on

module _ {file floor : ℕ} (e : DirectiveExecutor) (at : IsAt file floor e) (source : Text)
    (frame : ConditionalFrame) (of_frame : frame.frame_file ≡ file)
    (fresh : frame.else_seen ≡ false) (middle closing : PreprocessingDirective)
    (of_middle : middle.file ≡ file) (of_closing : closing.file ≡ file) (first second rest : Block)
    (of_first : IsOf file first) (of_second : IsOf file second)
    (after : List PreprocessingDirective)
    (low_first : suc (length e.conditionals) + height first ≤ directive_conditional_depth_limit)
    (low_second : suc (length e.conditionals) + height second
      ≤ directive_conditional_depth_limit) where
  abbrev tail : List PreprocessingDirective
  tail = as_kind DirectiveKind.endif closing ∷ flatten rest after

  abbrev body : List PreprocessingDirective
  body = as_kind DirectiveKind.else_branch middle ∷ flatten second tail

  abbrev other : ConditionalFrame
  other = record frame {
    else_seen = true;
    branch_active = frame.parent_active && not frame.condition;
  }

  -- The first part is executed and the second is passed over.
  pub first-Carries :
      frame.parent_active ≡ true
      → frame.condition ≡ true
      → Carries source body
          (eval source first (push e frame))
          (run_list source (flatten first body) (push e frame))
      → Carries source
          (flatten rest after)
          (eval source first e)
          (run_list source (flatten first body) (push e frame))
  unfolding Carries
  first-Carries parent holds_first ih =
      let left = eval source first e in
      let same = eval-SameStack source first e in
      let at' = SameStack-IsAt e left.0 at same in
      let ih' =
        subst (λ r. Carries source body r (run_list source (flatten first body) (push e frame)))
          (eval_stack source first e (frame ∷ e.conditionals)) ih in
      let deep : suc (length left.0.conditionals) + height second
          ≤ directive_conditional_depth_limit =
        subst (λ l. suc (length l) + height second ≤ directive_conditional_depth_limit) (sym same.0)
          low_second in
      let low = at'.low in
      (
        (λ t.
            ih'.0 t
            ∙ ap (λ c. run_list source body (with_stack left.0 (frame ∷ c))) (sym same.0)
            ∙ run_step source _ _ (push left.0 frame) (push left.0 other)
                (else_step left.0 at' source frame of_frame middle of_middle fresh)
            ∙ skip_block source second tail (push left.0 other)
                (with_stack-IsAt left.0 (other ∷ left.0.conditionals) at' (omega arith)) of_second
                deep (unfold active top_active in rw (parent, holds_first) refl)
            ∙ run_step source _ _ (push left.0 other) left.0
                (endif_step left.0 at' source other of_frame closing of_closing)),
        ih'.1,
      )

  -- The first part is passed over and the second is executed.
  pub second-Carries :
      frame.branch_active ≡ false
      → Carries source tail
          (eval source second (push e other))
          (run_list source (flatten second tail) (push e other))
      → Carries source
          (flatten rest after)
          (eval source second e)
          (run_list source (flatten first body) (push e frame))
  unfolding Carries
  second-Carries off ih =
      let right = eval source second e in
      let same = eval-SameStack source second e in
      let at' = SameStack-IsAt e right.0 at same in
      let low = at.low in
      let reached : run_list source (flatten first body) (push e frame)
          ≡ run_list source (flatten second tail) (push e other) =
        skip_block source first body (push e frame)
          (with_stack-IsAt e (frame ∷ e.conditionals) at (omega arith)) of_first low_first
          (unfold active top_active in off)
        ∙ run_step source _ _ (push e frame) (push e other)
            (else_step e at source frame of_frame middle of_middle fresh) in
      let ih' =
        subst (λ r. Carries source tail r (run_list source (flatten first body) (push e frame)))
          (eval_stack source second e (other ∷ e.conditionals))
          (subst (Carries source tail (eval source second (push e other))) (sym reached) ih) in
      (
        (λ t.
            ih'.0 t
            ∙ ap (λ c. run_list source tail (with_stack right.0 (other ∷ c))) (sym same.0)
            ∙ run_step source _ _ (push right.0 other) right.0
                (endif_step right.0 at' source other of_frame closing of_closing)),
        ih'.1,
      )
