-- ===== src/Project/Preprocessor/Insertion.antt =====
-- insert_slot of preprocessor.cpp, and its loop in ensure_capacity.
use server_engine_v.Common.{
  ℕ, ◌≡◌, ◌≢◌, ◌⊎◌, refl, arith, false, inl, inr, List, length, get_or, set,
}
use server_engine_v.Project.Preprocessor.{
  DefineSlot, vacant, name_of, hash_name, insert_slot, position, is_empty,
}
use server_engine_v.Project.Preprocessor.Removal.{IsDefineTable}
use server_engine_v.Project.Probing
use server_engine_v.Project.Probing.{wrap, probe}
use server_engine_v.Project.Probing.Insertion.{insert-IsInserted, written_IsInserted}
use server_engine_v.Project.Probing.Changes.{Leads_kept}
use server_engine_v.Project.Probing.Slots.{free, fits, start, HasRoom, search_ends}

abbrev pub IsInserted : List DefineSlot → DefineSlot → List DefineSlot → Type 0
IsInserted t0 slot t = Probing.Insertion.IsInserted vacant name_of hash_name t0 slot t

module _ (t : List DefineSlot) (table : IsDefineTable t) (slot : DefineSlot) (used : slot.name ≢ 0)
    (fresh : (i : ℕ) → (get_or t i vacant).name ≢ slot.name) (room : HasRoom vacant name_of t) where
  pub insert_slot-IsInserted : IsInserted t slot (insert_slot t slot)
  unfolding insert_slot
  insert_slot-IsInserted =
      insert-IsInserted vacant name_of refl hash_name t table slot used fresh room

  -- define writes where the search for the name ends, which is the same place.
  pub position-IsInserted : IsInserted t slot (set t (position t slot.name) slot)
  unfolding position
  position-IsInserted =
      let far = search_ends vacant name_of refl hash_name t table room slot.name in
      let gone : (get_or t far.0 vacant).name ≡ 0 = at_end far.0 far.3 in
      let some_slots : is_empty t ≡ false = ground arith in
      let way =
        Leads_kept (length t) (fits vacant name_of t slot.name) (free vacant name_of t)
          (λ j miss. ground arith) far.4 (start vacant name_of hash_name t slot.name) far.0
          (ground arith) far.5 in
      rw (some_slots, far.1)
        (written_IsInserted vacant name_of refl hash_name t table slot used fresh far.4 far.0 way)
    where
      at_end :
          (i : ℕ)
          → ((get_or t i vacant).name ≡ 0) ⊎ ((get_or t i vacant).name ≡ slot.name)
          → (get_or t i vacant).name ≡ 0
      at_end i (inl e) = e
      at_end i (inr e) = absurd (fresh i e)
