-- ===== src/Project/Preprocessor/Moves.antt =====
-- One round of the loop of preprocessor::undefine: a slot moves to a vacant place.
use server_engine_v.Common.{
  ℕ, ◌<◌, ◌≡◌, ◌≢◌, sym, ap, ◌∙◌, arith, inl, inr, ◌↔◌, List, length, get_or, set, length-set,
  get_or-set_self, get_or-set_ne, same_or_apart,
}
use server_engine_v.Project.Preprocessor.{DefineSlot, vacant, name_of}
use server_engine_v.Project.Preprocessor.Occupancy.{occupied, Has, occupied-set}

abbrev pub IsDistinct : List DefineSlot → Type 0
IsDistinct t =
    (i j : ℕ)
    → (get_or t i vacant).name ≢ 0
    → (get_or t i vacant).name ≡ (get_or t j vacant).name
    → i ≡ j

abbrev pub cleared : List DefineSlot → ℕ → List DefineSlot
cleared t c = set t c vacant

abbrev pub moved : List DefineSlot → ℕ → ℕ → List DefineSlot
moved t c q = set (set t c vacant) q (get_or t c vacant)

module _ (t : List DefineSlot) (c q : ℕ) (c_low : c < length t) (q_low : q < length t) where
  pub cleared_here : get_or (cleared t c) c vacant ≡ vacant
  cleared_here = get_or-set_self t c vacant vacant c_low

  pub cleared_there : (i : ℕ) → i ≢ c → get_or (cleared t c) i vacant ≡ get_or t i vacant
  cleared_there i apart = get_or-set_ne t c i vacant vacant apart

  pub moved_here : get_or (moved t c q) q vacant ≡ get_or t c vacant
  moved_here =
      get_or-set_self (cleared t c) q (get_or t c vacant) vacant (rw (length-set t c vacant) q_low)

  pub moved_there : (i : ℕ) → i ≢ q → get_or (moved t c q) i vacant ≡ get_or (cleared t c) i vacant
  moved_there i apart = get_or-set_ne (cleared t c) q i (get_or t c vacant) vacant apart

  pub length-moved : length (moved t c q) ≡ length t
  length-moved = length-set (cleared t c) q (get_or t c vacant) ∙ length-set t c vacant

  -- A slot with a name outside the target comes from the same place.
  pub moved_before :
      (i : ℕ)
      → i ≢ q
      → (get_or (moved t c q) i vacant).name ≢ 0
      → (i ≢ c) × (get_or (moved t c q) i vacant ≡ get_or t i vacant)
  moved_before i apart used =
      let apart' : i ≢ c = λ e. used (
        ap name_of
          (moved_there i apart ∙ ap (λ x. get_or (cleared t c) x vacant) e ∙ cleared_here)) in
      (apart', moved_there i apart ∙ cleared_there i apart')

  module _ (free : (get_or (cleared t c) q vacant).name ≡ 0) where
    -- A slot with a name, other than the one that moves, stays where it is.
    pub moved_after :
        (i : ℕ)
        → i ≢ c
        → (get_or t i vacant).name ≢ 0
        → get_or (moved t c q) i vacant ≡ get_or t i vacant
    moved_after i apart used =
        let apart' : i ≢ q = λ e. used (
          ap name_of (sym (cleared_there i apart) ∙ ap (λ x. get_or (cleared t c) x vacant) e)
          ∙ free) in
        moved_there i apart' ∙ cleared_there i apart

    pub moved-Has : (slot : DefineSlot) → slot.name ≢ 0 → Has (moved t c q) slot ↔ Has t slot
    moved-Has slot used = (from, to)
      where
        from : Has (moved t c q) slot → Has t slot
        from (i, e) = elim (same_or_apart i q) [
          | inl same ↦ (c, sym moved_here ∙ ap (λ x. get_or (moved t c q) x vacant) (sym same) ∙ e)
          | inr apart ↦
              let before = moved_before i apart (λ z. used (sym (ap name_of e) ∙ z)) in
              (i, sym before.1 ∙ e)
        ]

        to : Has t slot → Has (moved t c q) slot
        to (i, e) = elim (same_or_apart i c) [
          | inl same ↦ (q, moved_here ∙ ap (λ x. get_or t x vacant) (sym same) ∙ e)
          | inr apart ↦ (i, moved_after i apart (λ z. used (sym (ap name_of e) ∙ z)) ∙ e)
        ]

    pub occupied-moved : occupied (moved t c q) ≡ occupied t
    occupied-moved =
        let out = occupied-set t c vacant c_low in
        let in_again =
          occupied-set (cleared t c) q (get_or t c vacant) (rw (length-set t c vacant) q_low) in
        ground (arith, free)

    module _ (distinct : IsDistinct t) (used : (get_or t c vacant).name ≢ 0) where
      -- The name that moves stands nowhere else.
      pub moved_alone : (i : ℕ) → (get_or (cleared t c) i vacant).name ≢ (get_or t c vacant).name
      moved_alone i same = elim (same_or_apart i c) [
        | inl here ↦ used (
            sym same
            ∙ ap (λ x. (get_or (cleared t c) x vacant).name) here
            ∙ ap name_of cleared_here)
        | inr apart ↦
            let e : (get_or t c vacant).name ≡ (get_or t i vacant).name =
              sym same ∙ ap name_of (cleared_there i apart) in
            apart (sym (distinct c i used e))
      ]

      pub moved-IsDistinct : IsDistinct (moved t c q)
      moved-IsDistinct i j named same = elim (same_or_apart i q) [
        | inl here ↦ elim (same_or_apart j q) [
          | inl here' ↦ here ∙ sym here'
          | inr apart' ↦ absurd (
              moved_alone j (
                sym (ap name_of (moved_there j apart'))
                ∙ sym same
                ∙ ap (λ x. (get_or (moved t c q) x vacant).name) here
                ∙ ap name_of moved_here))
        ]
        | inr apart ↦ elim (same_or_apart j q) [
          | inl here' ↦ absurd (
              moved_alone i (
                sym (ap name_of (moved_there i apart))
                ∙ same
                ∙ ap (λ x. (get_or (moved t c q) x vacant).name) here'
                ∙ ap name_of moved_here))
          | inr apart' ↦
              let before = moved_before i apart named in
              let before' = moved_before j apart' (λ z. named (same ∙ z)) in
              distinct i j (λ z. named (ap name_of before.1 ∙ z))
                (sym (ap name_of before.1) ∙ same ∙ ap name_of before'.1)
        ]
      ]
