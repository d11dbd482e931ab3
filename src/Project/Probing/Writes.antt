-- ===== src/Project/Probing/Writes.antt =====
-- Writing one slot of a table: what an insertion and a removal do to the way of each other key.
use server_engine_v.Common.{
  ℕ, ◌<◌, ◌≡◌, ◌≢◌, ap, subst, arith, false, List, length, set, length-set, get_or-set_self,
  get_or-set_ne,
}
use server_engine_v.Project.Probing.{wrap}
use server_engine_v.Project.Probing.Capacity.{IsPower, wrap-lt}
use server_engine_v.Project.Probing.Paths.{Leads, Leads_stops, Leads-lt}
use server_engine_v.Project.Probing.Changes.{Leads_kept, Leads_avoiding}
use server_engine_v.Project.Probing.Slots.{key_at, free, fits, start, IsPlaced}

module _ {S : Type 0} (vacant : S) (key : S → ℕ) where
  pub key_at-set_self :
      (t : List S) (i : ℕ) (s : S) → i < length t → key_at vacant key (set t i s) i ≡ key s
  key_at-set_self t i s low = ap key (get_or-set_self t i s vacant low)

  pub key_at-set_ne :
      (t : List S) (i j : ℕ) (s : S)
      → j ≢ i
      → key_at vacant key (set t i s) j ≡ key_at vacant key t j
  key_at-set_ne t i j s apart = ap key (get_or-set_ne t i j s vacant apart)

module _ {S : Type 0} (vacant : S) (key : S → ℕ) (hash : ℕ → ℕ) where
  -- A slot is placed as soon as a way for its key leads there in a table of its size.
  pub IsPlaced-by :
      (t : List S) (size k i steps : ℕ)
      → length t ≡ size
      → key_at vacant key t i ≡ k
      → Leads size (fits vacant key t k) steps (wrap size (hash k)) i
      → IsPlaced vacant key hash t i
  IsPlaced-by t size k i steps e e' way = rw (e, e') (steps, way)

  module _ (t : List S) (s : S) (end : ℕ) where
    -- A new key may be written where the search for a vacant slot ends.
    pub insert_new :
        IsPower (length t)
        → ((j : ℕ) → key_at vacant key t j ≢ key s)
        → (steps : ℕ)
        → Leads (length t) (free vacant key t) steps (start vacant key hash t (key s)) end
        → IsPlaced vacant key hash (set t end s) end
    insert_new power fresh steps way =
        let low =
          Leads-lt (length t) (free vacant key t) power steps (start vacant key hash t (key s)) end
            (wrap-lt (length t) power (hash (key s))) way in
        let hit =
          Leads_stops (length t) (free vacant key t) steps (start vacant key hash t (key s)) end
            way in
        let here = key_at-set_self vacant key t end s low in
        let keep : (j : ℕ)
            → free vacant key t j ≡ false
            → fits vacant key (set t end s) (key s) j ≡ false =
          λ j miss.
            let apart : j ≢ end = λ e. cc (subst (λ x. free vacant key t x ≡ false) e miss) in
            let there = key_at-set_ne vacant key t end j s apart in
            rw there (ground (arith, fresh j)) in
        IsPlaced-by (set t end s) (length t) (key s) end steps (length-set t end s) here (
          Leads_kept (length t) (free vacant key t) (fits vacant key (set t end s) (key s)) keep
            steps (start vacant key hash t (key s)) end (rw here (ground arith)) way)

    -- The other keys stay, if the slot was vacant.
    pub insert_old :
        key_at vacant key t end ≡ 0
        → (i : ℕ) → i ≢ end
        → IsPlaced vacant key hash t i
        → IsPlaced vacant key hash (set t end s) i
    insert_old vacated i apart (steps, way) =
        let k = key_at vacant key t i in
        let same = key_at-set_ne vacant key t end i s apart in
        let keep : (j : ℕ)
            → fits vacant key t k j ≡ false
            → fits vacant key (set t end s) k j ≡ false =
          λ j miss.
            let elsewhere : j ≢ end = λ e.
              absurd (let m = subst (λ x. fits vacant key t k x ≡ false) e miss in ground arith) in
            let there = key_at-set_ne vacant key t end j s elsewhere in rw there miss in
        IsPlaced-by (set t end s) (length t) k i steps (length-set t end s) same (
          Leads_kept (length t) (fits vacant key t k) (fits vacant key (set t end s) k) keep steps
            (start vacant key hash t k) i (rw same (ground arith)) way)

    -- The other keys stay, if no way to them passes through the slot.
    pub erase_old :
        (i : ℕ)
        → i ≢ end
        → ((j : ℕ) → Leads (length t) (fits vacant key t (key_at vacant key t i)) j end i → ⊥)
        → IsPlaced vacant key hash t i
        → IsPlaced vacant key hash (set t end s) i
    erase_old i apart unreached (steps, way) =
        let k = key_at vacant key t i in
        let same = key_at-set_ne vacant key t end i s apart in
        let keep : (j : ℕ)
            → j ≢ end
            → fits vacant key t k j ≡ false
            → fits vacant key (set t end s) k j ≡ false =
          λ j elsewhere miss. rw (key_at-set_ne vacant key t end j s elsewhere) miss in
        IsPlaced-by (set t end s) (length t) k i steps (length-set t end s) same (
          Leads_avoiding (length t) (fits vacant key t k) (fits vacant key (set t end s) k) end i
            unreached keep (rw same (ground arith)) steps (start vacant key hash t k) way)
