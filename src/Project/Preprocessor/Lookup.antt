-- ===== src/Project/Preprocessor/Lookup.antt =====
-- preprocessor::position and preprocessor::defined on a well-formed table.
use server_engine_v.Common.{
  ℕ, ◌≡◌, ◌≢◌, ◌⊎◌, ◌↔◌, refl, sym, ap, ◌∙◌, arith, false, ◌==◌, inl, inr, List, [], length, get_or,
  if◌then◌else◌, Option, some, none,
}
use server_engine_v.Project.Preprocessor.{
  DefineSlot, Preprocessor, vacant, name_of, hash_name, is_empty, position,
}
use server_engine_v.Project.Preprocessor.Occupancy.{Has}
use server_engine_v.Project.Preprocessor.Removal.{IsDefineTable}
use server_engine_v.Project.Preprocessor.Validity.{IsValid, valid-HasRoom}
use server_engine_v.Project.Probing.Slots.{HasRoom, search_finds, search_ends}

-- the active replacement of a name, 0 for the empty one
abbrev pub binding_at : List DefineSlot → ℕ → Option ℕ
binding_at slots name =
    if is_empty slots
    then none
    else if (get_or slots (position slots name) vacant).name == name
    then some (get_or slots (position slots name) vacant).replacement
    else none

abbrev pub binding : Preprocessor → ℕ → Option ℕ
binding p name = binding_at p.definitions name

abbrev pub bound_to : ℕ → ℕ → DefineSlot
bound_to name replacement = record { name = name; replacement = replacement }

module _ (t : List DefineSlot) (table : IsDefineTable t) (room : HasRoom vacant name_of t)
    (name : ℕ) (used : name ≢ 0) where
  -- The search for a name ends at its slot, if a slot has it, and at a vacant slot otherwise.
  pub position-finds :
      (x : DefineSlot) → x.name ≡ name → Has t x → get_or t (position t name) vacant ≡ x
  unfolding position
  position-finds x e (i, same) =
      let here : (get_or t i vacant).name ≡ name = ap name_of same ∙ e in
      let some_slots : is_empty t ≡ false = ground arith in
      let found =
        search_finds vacant name_of refl hash_name t table room i (λ z. used (sym here ∙ z)) in
      rw (some_slots, ← here, found) same

  pub position_ends :
      ((get_or t (position t name) vacant).name ≡ 0)
      ⊎ ((get_or t (position t name) vacant).name ≡ name)
  unfolding position
  position_ends =
      let some_slots : is_empty t ≡ false = ground arith in
      let far = search_ends vacant name_of refl hash_name t table room name in
      rw (some_slots, far.1) far.3

  pub binding_at-Has : (r : ℕ) → (binding_at t name ≡ some r) ↔ Has t (bound_to name r)
  binding_at-Has r = (from, to)
    where
      from : binding_at t name ≡ some r → Has t (bound_to name r)
      from e = (position t name, ground arith)

      to : Has t (bound_to name r) → binding_at t name ≡ some r
      to h =
          let at : get_or t (position t name) vacant ≡ bound_to name r =
            position-finds (bound_to name r) refl h in
          let some_slots : is_empty t ≡ false = ground arith in ground arith

  -- A name with a vacant slot at its position stands nowhere.
  pub position-fresh :
      (get_or t (position t name) vacant).name ≡ 0 → (i : ℕ) → (get_or t i vacant).name ≢ name
  position-fresh gone i e =
      let at = position-finds (get_or t i vacant) e (i, refl) in
      used (sym e ∙ sym (ap name_of at) ∙ gone)

module _ (p : Preprocessor) (v : IsValid p) (name : ℕ) (used : name ≢ 0) where
  pub binding-Has : (r : ℕ) → (binding p name ≡ some r) ↔ Has p.definitions (bound_to name r)
  binding-Has r = by_shape v.shape
    where
      by_shape :
          (p.definitions ≡ []) ⊎ IsDefineTable p.definitions
          → (binding p name ≡ some r) ↔ Has p.definitions (bound_to name r)
      by_shape (inr table) =
          binding_at-Has p.definitions table (valid-HasRoom p v table) name used r
      by_shape (inl e) = (
        λ b. absurd (let n : length p.definitions ≡ 0 = ap length e in ground arith),
        λ (i, same). absurd (used (sym (ap name_of same) ∙ ap (λ l. (get_or l i vacant).name) e)),
      )

-- Two options that hold the same values are the same.
pub same_option : (a b : Option ℕ) → ((r : ℕ) → (a ≡ some r) ↔ (b ≡ some r)) → a ≡ b
same_option none none h = refl
same_option none (some y) h = cc ((h y).1 refl)
same_option (some x) b h = sym ((h x).0 refl)
