-- ===== src/Project/Preprocessor/Expansion.antt =====
-- preprocessor::transition and preprocessor::expand. The two loops of expand take fuel; `none` means
-- that it ran out.
use server_engine_v.Common.{
  ℕ, zero, suc, Bool, true, false, not, ◌==◌, if◌then◌else◌, get_or, Option, some, none,
}
use server_engine_v.Status.{ServerStatus, success, project_configuration_invalid}
use server_engine_v.Project.Preprocessor.{Preprocessor, vacant, is_empty, position}

pub data TransitionKind : Type 0 where
  next identifier empty : TransitionKind

pub data PreprocessorExpansion : Type 0 where
  identifier : ℕ → PreprocessorExpansion
  empty : PreprocessorExpansion

unfoldable pub is_next : TransitionKind → Bool
is_next TransitionKind.next = true
is_next _ = false

-- the kind of a name, and the name that replaces it
unfoldable pub transition : Preprocessor → ℕ → TransitionKind × ℕ
transition p name =
    let slot = get_or p.definitions (position p.definitions name) vacant in
    if is_empty p.definitions
    then (TransitionKind.identifier, 0)
    else if not (slot.name == name)
    then (TransitionKind.identifier, 0)
    else if slot.replacement == 0
    then (TransitionKind.empty, 0)
    else (TransitionKind.next, slot.replacement)

-- the lambda `terminal`
unfoldable pub terminal : TransitionKind → ℕ → PreprocessorExpansion
terminal TransitionKind.empty name = PreprocessorExpansion.empty
terminal _ name = PreprocessorExpansion.identifier name

-- how the first loop ends
pub data Race : Type 0 where
  ended : PreprocessorExpansion → Race
  met : ℕ → Race
  exhausted : Race

unfoldable pub race : ℕ → Preprocessor → ℕ → ℕ → Race
unfolding is_next terminal
race zero p tortoise hare = exhausted
race (suc fuel) p tortoise hare =
    let first = transition p tortoise in
    let second = transition p hare in
    let third = transition p second.1 in
    let rest = race fuel p first.1 third.1 in
    if not (is_next first.0)
    then ended (terminal first.0 tortoise)
    else if not (is_next second.0)
    then ended (terminal second.0 hare)
    else if not (is_next third.0)
    then ended (terminal third.0 second.1)
    else if first.1 == third.1
    then met first.1
    else rest

-- the second loop: the entry of the cycle, or the error return
unfoldable pub find_entry : ℕ → Preprocessor → ℕ → ℕ → Option (Option ℕ)
unfolding is_next
find_entry zero p entry meeting = none
find_entry (suc fuel) p entry meeting =
    let next_entry = transition p entry in
    let next_meeting = transition p meeting in
    let rest = find_entry fuel p next_entry.1 next_meeting.1 in
    if entry == meeting
    then some (some entry)
    else if not (is_next next_entry.0)
    then some none
    else if not (is_next next_meeting.0)
    then some none
    else rest

unfoldable pub entry_result : Option (Option ℕ) → Option (ServerStatus × PreprocessorExpansion)
entry_result none = none
entry_result (some none) = some (project_configuration_invalid, PreprocessorExpansion.identifier 0)
entry_result (some (some entry)) = some (success, PreprocessorExpansion.identifier entry)

unfoldable pub race_result :
    ℕ → Preprocessor → ℕ → Race → Option (ServerStatus × PreprocessorExpansion)
race_result fuel p name (ended output) = some (success, output)
race_result fuel p name (met meeting) = entry_result (find_entry fuel p name meeting)
race_result fuel p name exhausted = none

unfoldable pub expand :
    ℕ → (ℕ → Bool) → Preprocessor → ℕ → Option (ServerStatus × PreprocessorExpansion)
unfolding race find_entry race_result entry_result
expand fuel known p name =
    if not (known name)
    then some (project_configuration_invalid, PreprocessorExpansion.identifier 0)
    else race_result fuel p name (race fuel p name name)
