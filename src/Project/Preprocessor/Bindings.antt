-- ===== src/Project/Preprocessor/Bindings.antt =====
-- preprocessor.cpp against a plain map from names to replacements.
use server_engine_v.Common.{
  ℕ, ◌≡◌, ◌≢◌, ◌⊎◌, ◌↔◌, sym, ap, ◌∙◌, arith, Bool, true, false, not, ◌&&◌, ◌==◌, Bool-cases, inl,
  inr, [], length, get_or, if◌then◌else◌, Option, some, none,
}
use server_engine_v.Project.Preprocessor.{
  DefineSlot, Preprocessor, vacant, name_of, is_empty, position,
}
use server_engine_v.Project.Preprocessor.Occupancy.{Has}
use server_engine_v.Project.Preprocessor.Removal.{IsDefineTable}
use server_engine_v.Project.Preprocessor.Validity.{IsValid, valid-HasRoom}
use server_engine_v.Project.Preprocessor.Lookup.{
  binding, bound_to, binding-Has, position_ends, position-fresh, same_option,
}

unfoldable pub update : (ℕ → Option ℕ) → ℕ → Option ℕ → ℕ → Option ℕ
update b name value m = if m == name then value else b m

-- what the search for a name tells define_impl
abbrev pub existing : Preprocessor → ℕ → DefineSlot
existing p name = get_or p.definitions (position p.definitions name) vacant

abbrev pub is_defined : Preprocessor → ℕ → Bool
is_defined p name = not (is_empty p.definitions) && not ((existing p name).name == 0)

abbrev pub SearchCases : Preprocessor → ℕ → Type 0
SearchCases p name =
    ((is_defined p name ≡ true)
      × ((existing p name).name ≡ name)
      × (binding p name ≡ some (existing p name).replacement))
    ⊎ ((is_defined p name ≡ false)
        × (binding p name ≡ none)
        × ((i : ℕ) → (get_or p.definitions i vacant).name ≢ name))

module _ (p : Preprocessor) (v : IsValid p) (name : ℕ) (used : name ≢ 0) where
  pub search_cases : SearchCases p name
  search_cases = by_shape v.shape
    where
      by_end :
          IsDefineTable p.definitions
          → ((existing p name).name ≡ 0) ⊎ ((existing p name).name ≡ name)
          → SearchCases p name
      by_end table (inl gone) = inr (
        ground arith,
        ground arith,
        position-fresh p.definitions table (valid-HasRoom p v table) name used gone,
      )
      by_end table (inr here) =
          let room = valid-HasRoom p v table in
          let low = room.1 in inl (ground arith, here, ground arith)

      by_shape : (p.definitions ≡ []) ⊎ IsDefineTable p.definitions → SearchCases p name
      by_shape (inl e) =
          let n : length p.definitions ≡ 0 = ap length e in
          inr (
            ground arith,
            ground arith,
            λ i same. used (sym same ∙ ap (λ l. (get_or l i vacant).name) e),
          )
      by_shape (inr table) =
          by_end table (position_ends p.definitions table (valid-HasRoom p v table) name used)

  -- Adding a slot for a new name updates the map there.
  pub added :
      (q : Preprocessor)
      → IsValid q
      → (replacement : ℕ) → ((i : ℕ) → (get_or p.definitions i vacant).name ≢ name)
      → ((x : DefineSlot)
          → x.name ≢ 0
          → Has q.definitions x ↔ (Has p.definitions x ⊎ (x ≡ bound_to name replacement)))
      → (m : ℕ) → m ≢ 0
      → binding q m ≡ update (binding p) name (some replacement) m
  unfolding update
  added q w replacement fresh held m h = elim (Bool-cases (m == name)) [
    | inl same ↦ rw same (
        (binding-Has q w m h replacement).1
          ((held (bound_to m replacement) h).1 (inr (ground arith))))
    | inr other ↦ rw other (
        same_option (binding q m) (binding p m) (λ r. (
          λ a.
              (binding-Has p v m h r).1
                (old r other ((held (bound_to m r) h).0 ((binding-Has q w m h r).0 a))),
          λ a.
              (binding-Has q w m h r).1
                ((held (bound_to m r) h).1 (inl ((binding-Has p v m h r).0 a))),
        )))
  ]
    where
      old :
          (r : ℕ)
          → (m == name) ≡ false
          → Has p.definitions (bound_to m r) ⊎ (bound_to m r ≡ bound_to name replacement)
          → Has p.definitions (bound_to m r)
      old r other (inl a) = a
      old r other (inr e) = absurd (let same : m ≡ name = ap name_of e in ground arith)

  pub removed :
      (q : Preprocessor)
      → IsValid q
      → ((x : DefineSlot)
          → x.name ≢ 0
          → Has q.definitions x ↔ (Has p.definitions x × (x.name ≢ name)))
      → (m : ℕ) → m ≢ 0
      → binding q m ≡ update (binding p) name none m
  unfolding update
  removed q w held m h = elim (Bool-cases (m == name)) [
    | inl same ↦ rw same (
        same_option (binding q m) none (λ r. (
          λ a. absurd (((held (bound_to m r) h).0 ((binding-Has q w m h r).0 a)).1 (ground arith)),
          λ a. absurd (cc),
        )))
    | inr other ↦ rw other (
        same_option (binding q m) (binding p m) (λ r. (
          λ a.
              (binding-Has p v m h r).1 ((held (bound_to m r) h).0 ((binding-Has q w m h r).0 a)).0,
          λ a.
              (binding-Has q w m h r).1
                ((held (bound_to m r) h).1 ((binding-Has p v m h r).0 a, λ e. ground arith)),
        )))
  ]
