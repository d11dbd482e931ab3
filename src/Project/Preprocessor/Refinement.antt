-- ===== src/Project/Preprocessor/Refinement.antt =====
-- preprocessor.cpp behaves as a plain map from names to replacements.
use server_engine_v.Common.{
  ℕ, ◌+◌, ◌-◌, ◌^◌, ◌≤◌, ◌≡◌, ◌≢◌, ◌⊎◌, refl, sym, ap, ◌∙◌, subst, arith, Bool, true, false, not,
  ◌&&◌, ◌||◌, ◌==◌, Bool-cases, inl, inr, List, [], ◌∷◌, length, set, if◌then◌else◌, Option, some,
  none,
}
use server_engine_v.Status.{ServerStatus, success, project_configuration_invalid}
use server_engine_v.Project.Preprocessor.{
  DefineSlot, Preprocessor, vacant, name_of, is_empty, position, vacant_at, define_impl, define_new,
  define, define_empty, undefine, reset, clear_all, reinsert,
}
use server_engine_v.Project.Probing.{wrap}
use server_engine_v.Project.Preprocessor.Occupancy.{
  occupied-clear_all, length-clear_all, clear_all-vacant,
}
use server_engine_v.Project.Preprocessor.Removal.{IsDefineTable}
use server_engine_v.Project.Preprocessor.Reinsertion.{removal-IsRemoved}
use server_engine_v.Project.Preprocessor.Validity.{IsValid, valid-HasRoom, define_new_lem}
use server_engine_v.Project.Preprocessor.Lookup.{binding, bound_to}
use server_engine_v.Project.Preprocessor.Bindings.{
  update, existing, is_defined, SearchCases, search_cases, added, removed,
}
use server_engine_v.Project.Preprocessor.Replay.{
  Bindings, bind, accepts, Directive, define_name, define_as, undefine_name, reset_all, expected,
  step, replay, run,
}

abbrev pub Agrees : Preprocessor → Bindings → Type 0
Agrees p b = (m : ℕ) → m ≢ 0 → binding p m ≡ b m

-- what one call has to show
pub record IsStep (p : Preprocessor) (got : Preprocessor × ServerStatus)
    (want : Bindings × ServerStatus) : Type 0 where
  pub valid : IsValid got.0
  pub agrees : Agrees got.0 want.0
  pub status : got.1 ≡ want.1
  pub count : got.0.definition_count ≤ p.definition_count + 1

unchanged_IsStep :
    (p : Preprocessor) (b : Bindings) (s : ServerStatus)
    → IsValid p
    → Agrees p b
    → IsStep p (p, s) (b, s)
unchanged_IsStep p b s v a = record { valid = v; agrees = a; status = refl; count = omega arith }

update-Agrees :
    (p : Preprocessor) (b : Bindings) (name : ℕ) (value : Option ℕ)
    → Agrees p b
    → (m : ℕ) → m ≢ 0
    → update (binding p) name value m ≡ update b name value m
unfolding update
update-Agrees p b name value a m h = ap (λ x. if m == name then value else x) (a m h)

module _ (known : ℕ → Bool) (invalid : known 0 ≡ false) (p : Preprocessor) (b : Bindings)
    (v : IsValid p) (a : Agrees p b) where
  known_used : (name : ℕ) → known name ≡ true → name ≢ 0
  known_used name h e = cc

  define_impl-IsStep :
      p.definition_count + 1 ≤ 2 ^ 62
      → (name replacement : ℕ)
      → IsStep p (define_impl known p name replacement) (
          if accepts known name replacement
          then bind b name replacement (b name)
          else (b, project_configuration_invalid))
  unfolding define_impl bind
  define_impl-IsStep bound name replacement = elim (Bool-cases (accepts known name replacement)) [
    | inr refused ↦
        let back : (not (known name) || (not (replacement == 0) && not (known replacement)))
            ≡ true =
          ground arith in
        rw (back) (unchanged_IsStep p b project_configuration_invalid v a)
    | inl accepted ↦
        let back : (not (known name) || (not (replacement == 0) && not (known replacement)))
            ≡ false =
          ground arith in
        let used = known_used name (ground arith) in
        rw back (by_search used (search_cases p v name used))
  ]
    where
      by_search :
          name ≢ 0
          → SearchCases p name
          → IsStep p
              (if is_defined p name
                then (
                  p,
                  if (existing p name).replacement == replacement
                      then success
                      else project_configuration_invalid,
                )
                else define_new p name replacement)
              (bind b name replacement (b name))
      by_search used (inl (found, here, value)) =
          rw (found, sym (a name used) ∙ value) (unchanged_IsStep p b _ v a)
      by_search used (inr (missing, value, fresh)) =
          let new = define_new_lem p v bound (bound_to name replacement) used fresh in
          rw (missing, sym (a name used) ∙ value)
            record {
              valid = new.1;
              agrees = λ m h.
                  added p v name used (define_new p name replacement).0 new.1 replacement fresh
                    new.2 m h
                  ∙ update-Agrees p b name (some replacement) a m h;
              status = new.0;
              count = omega (arith, new.3);
            }

  absent_IsStep :
      (name : ℕ)
      → name ≢ 0
      → binding p name ≡ none
      → IsStep p (p, success) (update b name none, success)
  unfolding update
  absent_IsStep name used missing = record {
    valid = v;
    agrees = agrees;
    status = refl;
    count = omega arith;
  }
    where
      agrees : Agrees p (update b name none)
      agrees m h = elim (Bool-cases (m == name)) [
        | inl same ↦
            rw same
              (let e : m ≡ name = ground arith in subst (λ x. binding p x ≡ none) (sym e) missing)
        | inr other ↦ rw other (a m h)
      ]

  undefine-IsStep :
      (name : ℕ)
      → IsStep p
          (undefine known p name)
          (if known name then (update b name none, success) else (b, project_configuration_invalid))
  unfolding undefine
  undefine-IsStep name = elim (Bool-cases (known name)) [
    | inr refused ↦ rw refused (unchanged_IsStep p b project_configuration_invalid v a)
    | inl accepted ↦
        let used = known_used name accepted in
        rw accepted (by_search used (search_cases p v name used) v.shape)
  ]
    where
      after : List DefineSlot
      after =
          reinsert (length p.definitions) (set p.definitions (position p.definitions name) vacant)
            (wrap (length p.definitions) (position p.definitions name + 1))

      by_search :
          name ≢ 0
          → SearchCases p name
          → (p.definitions ≡ []) ⊎ IsDefineTable p.definitions
          → IsStep p
              (if is_empty p.definitions
                then (p, success)
                else if vacant_at p.definitions (position p.definitions name)
                then (p, success)
                else (
                  record { definitions = after; definition_count = p.definition_count - 1 },
                  success,
                ))
              (update b name none, success)
      by_search used (inr (missing, value, fresh)) shape =
          elim (Bool-cases (is_empty p.definitions)) [
            | inl empty ↦ rw empty (absent_IsStep name used value)
            | inr some_slots ↦
                let gone : vacant_at p.definitions (position p.definitions name) ≡ true =
                  ground arith in
                rw (some_slots, gone) (absent_IsStep name used value)
          ]
      by_search used (inl (found, here, value)) (inl e) =
          absurd (let n : length p.definitions ≡ 0 = ap length e in ground arith)
      by_search used (inl (found, here, value)) (inr table) =
          let named : (existing p name).name ≢ 0 = λ z. used (sym here ∙ z) in
          let done =
            removal-IsRemoved p.definitions table name (valid-HasRoom p v table)
              (position p.definitions name) named here in
          let some_slots : is_empty p.definitions ≡ false = ground arith in
          let taken : vacant_at p.definitions (position p.definitions name) ≡ false =
            ground arith in
          let q : Preprocessor = record {
            definitions = after;
            definition_count = p.definition_count - 1;
          } in
          let valid : IsValid q = record {
            shape = inr done.0.table;
            count = omega (arith, done.1, v.count);
            load = omega (arith, done.0.size, v.load);
          } in
          rw (some_slots, taken)
            record {
              valid = valid;
              agrees = λ m h.
                  removed p v name used q valid done.0.held m h ∙ update-Agrees p b name none a m h;
              status = refl;
              count = omega arith;
            }

  reset-IsStep : IsStep p (reset p, success) (λ _. none, success)
  unfolding reset
  reset-IsStep = record {
    valid = record {
      shape = shape v.shape;
      count = occupied-clear_all p.definitions;
      load = omega arith;
    };
    agrees = λ m h.
        ground (arith, clear_all-vacant p.definitions (position (clear_all p.definitions) m));
    status = refl;
    count = omega arith;
  }
    where
      shape :
          (p.definitions ≡ []) ⊎ IsDefineTable p.definitions
          → (clear_all p.definitions ≡ []) ⊎ IsDefineTable (clear_all p.definitions)
      shape (inl e) = inl (ap clear_all e)
      shape (inr table) = inr (record {
        power = rw (length-clear_all p.definitions) table.power;
        placed = λ i h. absurd (h (ap name_of (clear_all-vacant p.definitions i)));
      })

  step-IsStep :
      p.definition_count + 1 ≤ 2 ^ 62
      → (d : Directive) → IsStep p (step known p d) (expected known b d)
  unfolding step expected define define_empty
  step-IsStep bound (define_name name) = define_impl-IsStep bound name 0
  step-IsStep bound (define_as name replacement) = by_test (replacement == 0)
    where
      by_test :
          (empty : Bool)
          → IsStep p
              (if empty
                then (p, project_configuration_invalid)
                else define_impl known p name replacement)
              (if not empty && accepts known name replacement
                then bind b name replacement (b name)
                else (b, project_configuration_invalid))
      by_test true = unchanged_IsStep p b project_configuration_invalid v a
      by_test false = define_impl-IsStep bound name replacement
  step-IsStep bound (undefine_name name) = undefine-IsStep name
  step-IsStep bound reset_all = reset-IsStep

-- After any sequence of #define, #undef and reset calls, each name has the replacement that a plain map gives it,
-- the calls return the statuses of the map, and the table stays well formed.
pub run-replay :
    (known : ℕ → Bool)
    → known 0 ≡ false
    → (ds : List Directive) (p : Preprocessor) (b : Bindings) → IsValid p
    → Agrees p b
    → p.definition_count + length ds ≤ 2 ^ 62
    → IsValid (run known p ds).0
      × Agrees (run known p ds).0 (replay known b ds).0
      × ((run known p ds).1 ≡ (replay known b ds).1)
unfolding run replay
run-replay known invalid [] p b v a bound = (v, a, refl)
run-replay known invalid (d ∷ ds) p b v a bound =
    let one = step-IsStep known invalid p b v a (omega arith) d in
    let rest =
      run-replay known invalid ds (step known p d).0 (expected known b d).0 one.valid one.agrees
        (omega (arith, one.count)) in
    (rest.0, rest.1, rw (one.status, rest.2))
