-- ===== src/Project/Directives/Predefines.antt =====
-- initialize_preprocessor of project/frontend/directive_executor.cpp, with its configuration.
use server_engine_v.Common.{not, List, [], ◌∷◌, if◌then◌else◌}
use server_engine_v.Text.{Text, text_empty}
use server_engine_v.Status.{ServerStatus, success, succeeded}
use server_engine_v.Project.StringTable.{StringTable, intern, contains}
use server_engine_v.Project.Preprocessor
use server_engine_v.Project.Preprocessor.{Preprocessor, define_empty, defined, undefine}

pub record Predefine : Type 0 where
  pub predefine_name : Text
  pub predefine_replacement : Text

-- one round of the loop of initialize_preprocessor
predefine : StringTable → Preprocessor → Predefine → StringTable × Preprocessor × ServerStatus
predefine strings bindings configured =
    let (named, name, name_status) = intern strings configured.predefine_name in
    let (plain, plain_status) = define_empty (contains named) bindings name in
    let (replaced, replacement, status) = intern named configured.predefine_replacement in
    let (full, full_status) = Preprocessor.define (contains replaced) bindings name replacement in
    if not (succeeded name_status)
    then (named, bindings, name_status)
    else if text_empty configured.predefine_replacement
    then (named, plain, plain_status)
    else if not (succeeded status)
    then (replaced, bindings, status)
    else (replaced, full, full_status)

unfoldable pub initialize_preprocessor :
    List Predefine → StringTable → Preprocessor → StringTable × Preprocessor × ServerStatus
unfolding predefine
initialize_preprocessor [] strings bindings = (strings, bindings, success)
initialize_preprocessor (configured ∷ rest) strings bindings =
    let one = predefine strings bindings configured in
    let more = initialize_preprocessor rest one.0 one.1 in
    if not (succeeded one.2) then one else more
