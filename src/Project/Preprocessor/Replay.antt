-- ===== src/Project/Preprocessor/Replay.antt =====
-- Sequences of calls of preprocessor.cpp, and the same calls on a plain map.
use server_engine_v.Common.{
  ℕ, Bool, not, ◌&&◌, ◌||◌, ◌==◌, List, [], ◌∷◌, if◌then◌else◌, Option, some, none,
}
use server_engine_v.Status.{ServerStatus, success, project_configuration_invalid}
use server_engine_v.Project.Preprocessor.{Preprocessor, define, define_empty, undefine, reset}
use server_engine_v.Project.Preprocessor.Bindings.{update}

-- the active bindings as a map: the empty replacement is 0
abbrev pub Bindings : Type 0
Bindings = ℕ → Option ℕ

-- One binding for a name at a time; the same definition again is no error.
unfoldable pub bind : Bindings → ℕ → ℕ → Option ℕ → Bindings × ServerStatus
bind b name replacement none = (update b name (some replacement), success)
bind b name replacement (some old) =
    (b, if old == replacement then success else project_configuration_invalid)

abbrev pub accepts : (ℕ → Bool) → ℕ → ℕ → Bool
accepts known name replacement =
    not (not (known name) || (not (replacement == 0) && not (known replacement)))

pub data Directive : Type 0 where
  define_name : ℕ → Directive
  define_as : ℕ → ℕ → Directive
  undefine_name : ℕ → Directive
  reset_all : Directive

unfoldable pub expected : (ℕ → Bool) → Bindings → Directive → Bindings × ServerStatus
unfolding bind update
expected known b (define_name name) =
    if accepts known name 0 then bind b name 0 (b name) else (b, project_configuration_invalid)
expected known b (define_as name replacement) =
    if not (replacement == 0) && accepts known name replacement
    then bind b name replacement (b name)
    else (b, project_configuration_invalid)
expected known b (undefine_name name) =
    if known name then (update b name none, success) else (b, project_configuration_invalid)
expected known b reset_all = (λ _. none, success)

unfoldable pub step : (ℕ → Bool) → Preprocessor → Directive → Preprocessor × ServerStatus
unfolding define define_empty undefine reset
step known p (define_name name) = define_empty known p name
step known p (define_as name replacement) = define known p name replacement
step known p (undefine_name name) = undefine known p name
step known p reset_all = (reset p, success)

-- the bindings after a sequence of calls, and the status of each
unfoldable pub replay : (ℕ → Bool) → Bindings → List Directive → Bindings × List ServerStatus
unfolding expected
replay known b [] = (b, [])
replay known b (d ∷ ds) =
    let one = expected known b d in let rest = replay known one.0 ds in (rest.0, one.1 ∷ rest.1)

unfoldable pub run : (ℕ → Bool) → Preprocessor → List Directive → Preprocessor × List ServerStatus
unfolding step
run known p [] = (p, [])
run known p (d ∷ ds) =
    let one = step known p d in let rest = run known one.0 ds in (rest.0, one.1 ∷ rest.1)
