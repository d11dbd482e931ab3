-- ===== src/Policy.antt =====
-- server_policy.{hpp,cpp}, server_mode.hpp and the request kinds of communication/server_request.hpp.
use server_engine_v.Common.{Bool, true, false, not, if◌then◌else◌}

pub data ServerMode : Type 0 where
  full demo : ServerMode

pub data RequestKind : Type 0 where
  load publish build unload rebuild get_state get_value snap_ic reset_ic run freeze shutdown :
      RequestKind

unfoldable pub is_full : ServerMode → Bool
is_full full = true
is_full demo = false

unfoldable pub is_demo_mutation : RequestKind → Bool
is_demo_mutation publish = true
is_demo_mutation build = true
is_demo_mutation rebuild = true
is_demo_mutation reset_ic = true
is_demo_mutation run = true
is_demo_mutation freeze = true
is_demo_mutation load = false
is_demo_mutation unload = false
is_demo_mutation get_state = false
is_demo_mutation get_value = false
is_demo_mutation snap_ic = false
is_demo_mutation shutdown = false

unfoldable pub allows : ServerMode → RequestKind → Bool
unfolding is_full is_demo_mutation
allows mode request = if is_full mode then true else not (is_demo_mutation request)
