-- ===== src/Project/Directives/Skipping.antt =====
-- How execute of directive_executor.cpp passes over an inactive block.
use server_engine_v.Common.{
  ℕ, suc, ◌+◌, ◌≤◌, ◌<◌, ◌≡◌, ◌≢◌, refl, ◌∙◌, arith, Bool, true, false, not, ◌&&◌, ◌||◌, List, ◌∷◌,
  ltb, leb, ◌==◌, length,
}
use server_engine_v.Text.{Text}
use server_engine_v.Status.{success, succeeded}
use server_engine_v.Project.Directives.{
  DirectiveKind, PreprocessingDirective, ConditionalFrame, FileEntryFrame, DirectiveExecutor,
  returns, current_file_entry, floor_of, active, top_active, directive_conditional_depth_limit,
}
use server_engine_v.Project.Directives.Execution.{
  begin_conditional, take_else, take_endif, execute_active, execute_kind, execute_at, execute,
  new_frame, push,
}
use server_engine_v.Project.Directives.Blocks.{
  PlainKind, plain_kind, open_kind, Block, nothing, plain, choose, as_kind, flatten, height, IsOf,
  run_list, with_stack,
}

-- The current entry is the file's, and its floor is at most the depth.
pub record IsAt (file floor : ℕ) (e : DirectiveExecutor) : Type 0 where
  pub valid_file : file ≢ 0
  pub outer : List FileEntryFrame
  pub entered : e.file_entries ≡ record { entry_file = file; conditional_floor = floor } ∷ outer
  pub low : floor ≤ length e.conditionals

pub with_stack-IsAt :
    {file floor : ℕ} (e : DirectiveExecutor) (frames : List ConditionalFrame)
    → IsAt file floor e
    → floor ≤ length frames
    → IsAt file floor (with_stack e frames)
with_stack-IsAt e frames at low = record {
  valid_file = at.valid_file;
  outer = at.outer;
  entered = at.entered;
  low = low;
}

module _ {file floor : ℕ} (e : DirectiveExecutor) (at : IsAt file floor e) (source : Text) where
  -- A directive of the file is executed by its kind.
  pub execute-kind :
      (kind : DirectiveKind) (d : PreprocessingDirective)
      → d.file ≡ file
      → execute e (as_kind kind d) source ≡ execute_kind kind e (as_kind kind d) source floor
  unfolding execute execute_at current_file_entry floor_of
  execute-kind kind d of =
      let valid : (d.file == 0) ≡ false = let z = at.valid_file in ground arith in
      let same : (file == d.file) ≡ true = ground arith in
      let low : ltb (length e.conditionals) floor ≡ false = let h = at.low in ground arith in
      rw (at.entered, valid, same, low) refl

  abbrev Within : PreprocessingDirective → Type 0
  Within d = d.file ≡ file

  plain_off :
      (kind : PlainKind) (d : PreprocessingDirective)
      → Within d
      → active e ≡ false
      → execute e (as_kind (plain_kind kind) d) source ≡ (e, returns success)
  plain_off kind d of off = execute-kind (plain_kind kind) d of ∙ by_kind kind
    where
      by_kind :
          (k : PlainKind)
          → execute_kind (plain_kind k) e (as_kind (plain_kind kind) d) source floor
            ≡ (e, returns success)
      by_kind PlainKind.define = unfold execute_kind in rw off refl
      by_kind PlainKind.undef = unfold execute_kind in rw off refl
      by_kind PlainKind.include = unfold execute_kind in rw off refl
      by_kind PlainKind.line = unfold execute_kind in rw off refl
      by_kind PlainKind.error = unfold execute_kind in rw off refl
      by_kind PlainKind.pragma = unfold execute_kind in rw off refl
      by_kind PlainKind.unknown = unfold execute_kind in rw off refl
      by_kind PlainKind.invalid = unfold execute_kind in rw off refl

  pub plain_on :
      (kind : PlainKind) (d : PreprocessingDirective)
      → Within d
      → active e ≡ true
      → execute e (as_kind (plain_kind kind) d) source
        ≡ execute_active (plain_kind kind) e (as_kind (plain_kind kind) d) source
  plain_on kind d of on = execute-kind (plain_kind kind) d of ∙ by_kind kind
    where
      by_kind :
          (k : PlainKind)
          → execute_kind (plain_kind k) e (as_kind (plain_kind kind) d) source floor
            ≡ execute_active (plain_kind k) e (as_kind (plain_kind kind) d) source
      by_kind PlainKind.define = unfold execute_kind in rw on refl
      by_kind PlainKind.undef = unfold execute_kind in rw on refl
      by_kind PlainKind.include = unfold execute_kind in rw on refl
      by_kind PlainKind.line = unfold execute_kind in rw on refl
      by_kind PlainKind.error = unfold execute_kind in rw on refl
      by_kind PlainKind.pragma = unfold execute_kind in rw on refl
      by_kind PlainKind.unknown = unfold execute_kind in rw on refl
      by_kind PlainKind.invalid = unfold execute_kind in rw on refl

  pub open-begin :
      (inverted : Bool) (d : PreprocessingDirective)
      → Within d
      → execute e (as_kind (open_kind inverted) d) source
        ≡ begin_conditional e (as_kind (open_kind inverted) d) source inverted
  open-begin true d of = execute-kind DirectiveKind.ifndef d of ∙ unfold execute_kind in refl
  open-begin false d of = execute-kind DirectiveKind.ifdef d of ∙ unfold execute_kind in refl

  open_off :
      (inverted : Bool) (d : PreprocessingDirective)
      → Within d
      → length e.conditionals < directive_conditional_depth_limit
      → active e ≡ false
      → execute e (as_kind (open_kind inverted) d) source
        ≡ (push e (new_frame (as_kind (open_kind inverted) d) false false), returns success)
  unfolding begin_conditional
  open_off inverted d of room off =
      let space : (length e.conditionals == directive_conditional_depth_limit) ≡ false =
        ground arith in
      open-begin inverted d of ∙ rw (space, off) refl

-- #else and #endif on a frame of the file above the floor
module _ {file floor : ℕ} (e : DirectiveExecutor) (at : IsAt file floor e) (source : Text)
    (frame : ConditionalFrame) (of_frame : frame.frame_file ≡ file) (d : PreprocessingDirective)
    (of : d.file ≡ file) where
  pushed-IsAt : IsAt file floor (push e frame)
  pushed-IsAt = with_stack-IsAt e (frame ∷ e.conditionals) at (let h = at.low in omega arith)

  is_matched :
      (leb (length (frame ∷ e.conditionals)) floor || not (frame.frame_file == d.file)) ≡ false
  is_matched = let h = at.low in ground arith

  pub else_step :
      frame.else_seen ≡ false
      → execute (push e frame) (as_kind DirectiveKind.else_branch d) source ≡ (
        push e (record frame {
          else_seen = true;
          branch_active = frame.parent_active && not frame.condition;
        }),
        returns success,
      )
  unfolding execute_kind take_else
  else_step first =
      execute-kind (push e frame) pushed-IsAt source DirectiveKind.else_branch d of
      ∙ rw (is_matched, first) refl

  pub endif_step :
      execute (push e frame) (as_kind DirectiveKind.endif d) source ≡ (e, returns success)
  unfolding execute_kind take_endif
  endif_step =
      execute-kind (push e frame) pushed-IsAt source DirectiveKind.endif d of ∙ rw is_matched refl

pub run_step :
    (source : Text) (d : PreprocessingDirective) (ds : List PreprocessingDirective)
    (e e' : DirectiveExecutor)
    → execute e d source ≡ (e', returns success)
    → run_list source (d ∷ ds) e ≡ run_list source ds e'
unfolding run_list succeeded
run_step source d ds e e' h = rw h refl

-- In an inactive region a block changes nothing.
pub skip_block :
    (source : Text) (block : Block) (after : List PreprocessingDirective) {file floor : ℕ}
    (e : DirectiveExecutor)
    → IsAt file floor e
    → IsOf file block
    → length e.conditionals + height block ≤ directive_conditional_depth_limit
    → active e ≡ false
    → run_list source (flatten block after) e ≡ run_list source after e
unfolding flatten
skip_block source nothing after e at of depth off = refl
skip_block source (plain kind d rest) after e at (of, more) depth off =
    run_step source _ _ e e (plain_off e at source kind d of off)
    ∙ skip_block source rest after e at more depth off
skip_block source (choose inverted opening middle closing first second rest) after {floor = floor} e
      at (o, m, c, f, s, r) depth off =
    let frame = new_frame (as_kind (open_kind inverted) opening) false false in
    let other = record frame { else_seen = true } in
    let tail = as_kind DirectiveKind.endif closing ∷ flatten rest after in
    let low = at.low in
    let up : floor ≤ suc (length e.conditionals) = omega arith in
    run_step source _ _ e (push e frame) (open_off e at source inverted opening o (omega arith) off)
    ∙ skip_block source first (as_kind DirectiveKind.else_branch middle ∷ flatten second tail)
        (push e frame) (with_stack-IsAt e (frame ∷ e.conditionals) at up) f (omega arith)
        (unfold active top_active in refl)
    ∙ run_step source _ _ (push e frame) (push e other)
        (else_step e at source frame o middle m refl)
    ∙ skip_block source second tail (push e other)
        (with_stack-IsAt e (other ∷ e.conditionals) at up) s (omega arith)
        (unfold active top_active in refl)
    ∙ run_step source _ _ (push e other) e (endif_step e at source other o closing c)
    ∙ skip_block source rest after e at r (omega arith) off
