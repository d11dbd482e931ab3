-- ===== src/Project/Directives/Blocks.antt =====
-- Sequences of directives of one file as nested blocks, and what they mean.
use server_engine_v.Common.{
  ℕ, suc, ◌≡◌, Bool, true, false, List, [], ◌∷◌, Option, some, none, if◌then◌else◌,
}
use Prim.Native.Nat.{max}
use server_engine_v.Text.{Text}
use server_engine_v.Status.{succeeded}
use server_engine_v.Project.Directives.{
  DirectiveKind, PreprocessingDirective, ConditionalFrame, DirectiveExecutor, range_view,
}
use server_engine_v.Project.Directives.Execution.{execute_active, execute, holds}

pub data PlainKind : Type 0 where
  define undef include line error pragma unknown invalid : PlainKind

abbrev pub plain_kind : PlainKind → DirectiveKind
plain_kind PlainKind.define = DirectiveKind.define
plain_kind PlainKind.undef = DirectiveKind.undef
plain_kind PlainKind.include = DirectiveKind.include
plain_kind PlainKind.line = DirectiveKind.line
plain_kind PlainKind.error = DirectiveKind.error
plain_kind PlainKind.pragma = DirectiveKind.pragma
plain_kind PlainKind.unknown = DirectiveKind.unknown
plain_kind PlainKind.invalid = DirectiveKind.invalid

-- the opening directive is #ifndef if it is inverted, and else #ifdef
abbrev pub open_kind : Bool → DirectiveKind
open_kind true = DirectiveKind.ifndef
open_kind false = DirectiveKind.ifdef

pub data Block : Type 0 where
  nothing : Block
  plain : PlainKind → PreprocessingDirective → Block → Block
  choose :
      Bool
      → PreprocessingDirective
      → PreprocessingDirective
      → PreprocessingDirective
      → Block
      → Block
      → Block
      → Block

abbrev pub as_kind : DirectiveKind → PreprocessingDirective → PreprocessingDirective
as_kind kind d = record d { kind = kind }

-- the directives of a block, followed by others
unfoldable pub flatten : Block → List PreprocessingDirective → List PreprocessingDirective
flatten nothing after = after
flatten (plain kind d rest) after = as_kind (plain_kind kind) d ∷ flatten rest after
flatten (choose inverted opening middle closing first second rest) after =
    as_kind (open_kind inverted) opening
    ∷ flatten first (
        as_kind DirectiveKind.else_branch middle
        ∷ flatten second (as_kind DirectiveKind.endif closing ∷ flatten rest after))

-- how deep conditionals are nested, and whether all directives are of the file
abbrev pub height : Block → ℕ
height nothing = 0
height (plain kind d rest) = height rest
height (choose inverted opening middle closing first second rest) =
    max (suc (max (height first) (height second))) (height rest)

abbrev pub IsOf : ℕ → Block → Type 0
IsOf file nothing = Unit {0}
IsOf file (plain kind d rest) = (d.file ≡ file) × IsOf file rest
IsOf file (choose inverted opening middle closing first second rest) =
    (opening.file ≡ file)
    × (middle.file ≡ file)
    × (closing.file ≡ file)
    × IsOf file first
    × IsOf file second
    × IsOf file rest

-- execute, for each directive in turn, up to the first that does not succeed
unfoldable pub run_list :
    Text → List PreprocessingDirective → DirectiveExecutor → DirectiveExecutor × Bool
run_list source [] e = (e, true)
run_list source (d ∷ ds) e =
    let one = execute e d source in
    let more = run_list source ds one.0 in if succeeded one.1.status then more else (one.0, false)

-- the part of a conditional that its test chooses
unfoldable pub chosen :
    DirectiveExecutor
    → Bool
    → Option Text
    → DirectiveExecutor × Bool
    → DirectiveExecutor × Bool
    → DirectiveExecutor × Bool
chosen e inverted none first second = (e, false)
chosen e inverted (some spelling) first second = if holds e spelling inverted then first else second

-- What a block means in an active region: no stack, and no directive that is passed over.
unfoldable pub eval : Text → Block → DirectiveExecutor → DirectiveExecutor × Bool
unfolding chosen
eval source nothing e = (e, true)
eval source (plain kind d rest) e =
    let one = execute_active (plain_kind kind) e (as_kind (plain_kind kind) d) source in
    let more = eval source rest one.0 in if succeeded one.1.status then more else (one.0, false)
eval source (choose inverted opening middle closing first second rest) e =
    let one =
      chosen e inverted (range_view source opening.name) (eval source first e)
        (eval source second e) in
    let more = eval source rest one.0 in if one.1 then more else (one.0, false)

abbrev pub with_stack : DirectiveExecutor → List ConditionalFrame → DirectiveExecutor
with_stack e frames = record e { conditionals = frames }

abbrev pub on_stack :
    {A : Type 0} → DirectiveExecutor × A → List ConditionalFrame → DirectiveExecutor × A
on_stack r frames = (with_stack r.0 frames, r.1)
