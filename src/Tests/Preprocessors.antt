-- ===== src/Tests/Preprocessors.antt =====
-- The #define table and its expansion on concrete directives.
use server_engine_v.Common.{
  ℕ, ◌≡◌, ◌⊎◌, refl, arith, Bool, inl, ◌&&◌, ltb, List, [], ◌∷◌, some, none,
}
use server_engine_v.Status.{success, project_configuration_invalid}
use server_engine_v.Project.Probing.{grow, next_capacity, probe}
use server_engine_v.Project.Preprocessor.{
  Preprocessor, hash_name, position, insert_slot, insert_all, ensure_capacity, define_new,
  define_impl, define, define_empty, undefine, reinsert,
}
use server_engine_v.Project.Preprocessor.Expansion.{
  PreprocessorExpansion, identifier, expand, race, find_entry, transition,
}
use server_engine_v.Project.Preprocessor.Replay.{
  Directive, define_name, define_as, undefine_name, run, replay, step,
}
use server_engine_v.Project.Preprocessor.Lookup.{binding}
use server_engine_v.Project.Preprocessor.Validity.{IsValid}
use server_engine_v.Project.Preprocessor.Refinement.{Agrees, run-replay}
use server_engine_v.Project.Preprocessor.Meeting.{Ends}
use server_engine_v.Project.Preprocessor.Cycle.{Cycles, expand-Ends-or-Cycles}

abbrev interned : ℕ → Bool
interned name = ltb 0 name && ltb name 100

abbrev fresh_root : Preprocessor
fresh_root = record { definitions = []; definition_count = 0 }

fresh_root-IsValid : IsValid fresh_root
fresh_root-IsValid = record { shape = inl refl; count = refl; load = omega arith }

-- 1 → 2 → 3 → 2 is a cycle behind 1, and 4 is empty; 7 is defined and undefined again.
abbrev directives : List Directive
directives =
    define_as 1 2
    ∷ define_as 2 3
    ∷ define_as 7 1
    ∷ define_as 3 2
    ∷ define_name 4
    ∷ define_as 5 4
    ∷ define_as 5 6
    ∷ undefine_name 7
    ∷ define_as 8 200
    ∷ []

run-replay_example :
    IsValid (run interned fresh_root directives).0
    × Agrees (run interned fresh_root directives).0 (replay interned (λ _. none) directives).0
    × ((run interned fresh_root directives).1 ≡ (replay interned (λ _. none) directives).1)
run-replay_example =
    run-replay interned refl directives fresh_root (λ _. none) fresh_root-IsValid (λ m h. refl)
      (omega arith)

statuses :
    (run interned fresh_root directives).1
    ≡ success ∷ success ∷ success ∷ success ∷ success ∷ success ∷ project_configuration_invalid
      ∷ success ∷ project_configuration_invalid ∷ []
unfolding run step define define_empty undefine define_impl define_new ensure_capacity insert_all
    position insert_slot reinsert probe next_capacity grow hash_name
statuses = refl

abbrev root : Preprocessor
root = (run interned fresh_root directives).0

-- The cycle is entered at 2, and 5 stands for the empty text.
expansions :
    (expand 9 interned root 1 ≡ some (success, identifier 2))
    × (expand 9 interned root 5 ≡ some (success, PreprocessorExpansion.empty))
    × (expand 9 interned root 7 ≡ some (success, identifier 7))
    × (expand 9 interned root 0 ≡ some (project_configuration_invalid, identifier 0))
unfolding run step define define_empty undefine define_impl define_new ensure_capacity insert_all
    position insert_slot reinsert probe next_capacity grow hash_name expand race find_entry
    transition
expansions = (refl, refl, refl, refl)

root_count : root.definition_count ≡ 5
unfolding run step define define_empty undefine define_impl define_new ensure_capacity insert_all
    position insert_slot reinsert probe next_capacity grow hash_name
root_count = refl

expand-Ends-or-Cycles_example :
    (output : PreprocessorExpansion) × (expand 9 interned root 1 ≡ some (success, output))
    × (Ends (binding root) 1 output ⊎ Cycles (binding root) 1 output)
expand-Ends-or-Cycles_example =
    expand-Ends-or-Cycles interned root refl
      (run-replay interned refl directives fresh_root (λ _. none) fresh_root-IsValid (λ m h. refl)
        (omega arith)).0
      1 refl 9 (omega (arith, root_count))
