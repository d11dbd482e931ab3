-- ===== src/Project/Preprocessor/Removal.antt =====
-- The loop of preprocessor::undefine, which inserts the slots after the removed one again.
use server_engine_v.Common.{
  same_or_apart, ℕ, zero, suc, ◌+◌, ◌<◌, ◌≡◌, ◌≢◌, ◌⊎◌, ◌↔◌, refl, sym, ap, ◌∙◌, subst, arith,
  false, Bool-cases, inl, inr, List, length, get_or, set, length-set,
}
use server_engine_v.Project.Preprocessor.{
  DefineSlot, vacant, name_of, hash_name, insert_slot, vacant_at,
}
use server_engine_v.Project.Preprocessor.Occupancy.{Has}
use server_engine_v.Project.Preprocessor.Moves.{
  IsDistinct, cleared, moved, cleared_here, cleared_there, moved_there, length-moved, moved_before,
  moved_after, moved-Has, moved_alone, moved-IsDistinct,
}
use server_engine_v.Project.Probing.{wrap}
use server_engine_v.Project.Probing.Capacity.{IsPower, wrap-lt}
use server_engine_v.Project.Probing.Paths.{Leads, Passes, Leads-lt, Leads_stops, probe_at}
use server_engine_v.Project.Probing.Changes.{Leads_shorter, Leads-Passes, Passes-end, Passes-apart}
use server_engine_v.Project.Probing.Slots.{key_at, free, fits, IsPlaced, IsTable, used-lt}
use server_engine_v.Project.Probing.Writes.{insert_new, insert_old, erase_old}

abbrev pub IsDefineTable : List DefineSlot → Type 0
IsDefineTable t = IsTable vacant name_of hash_name t

-- Between two rounds: the slots on the run from the current position are still to be moved.
pub record IsReinserting (t0 : List DefineSlot) (name : ℕ) (t : List DefineSlot) (c k : ℕ)
    : Type 0 where
  pub size : length t ≡ length t0
  pub vacated : (i : ℕ) → key_at vacant name_of t0 i ≡ 0 → key_at vacant name_of t i ≡ 0
  pub run : (end : ℕ) × Leads (length t0) (vacant_at t0) k c end
  pub pending :
      (i j : ℕ) → Passes (length t0) (vacant_at t0) j c i → get_or t i vacant ≡ get_or t0 i vacant
  pub settled :
      (i : ℕ)
      → key_at vacant name_of t i ≢ 0
      → ((j : ℕ) → Passes (length t0) (vacant_at t0) j c i → ⊥)
      → IsPlaced vacant name_of hash_name t i
  pub distinct : IsDistinct t
  pub held : (slot : DefineSlot) → slot.name ≢ 0 → Has t slot ↔ (Has t0 slot × (slot.name ≢ name))

module _ (t0 : List DefineSlot) (table : IsDefineTable t0) (name : ℕ) (t : List DefineSlot)
    (c k : ℕ) (inv : IsReinserting t0 name t c (suc k)) where
  here_used0 : (get_or t0 c vacant).name ≢ 0
  here_used0 = λ e. let miss = inv.run.1.0 in ground arith

  here_same : get_or t c vacant ≡ get_or t0 c vacant
  here_same = inv.pending c 0 (inv.run.1.0, refl)

  pub here_used : (get_or t c vacant).name ≢ 0
  here_used e = here_used0 (sym (ap name_of here_same) ∙ e)

  pub here_low : c < length t
  here_low = used-lt vacant name_of refl hash_name t c here_used

  -- Where the slot goes: to its old place, or to one that was taken before.
  pub spot :
      (q : ℕ) × (insert_slot (cleared t c) (get_or t c vacant) ≡ moved t c q)
      × (q < length t)
      × ((get_or (set t c vacant) q vacant).name ≡ 0)
      × ((get_or t0 q vacant).name ≢ 0)
      × (steps : ℕ) × Leads
          (length (set t c vacant))
          (free vacant name_of (set t c vacant))
          steps
          (wrap (length (set t c vacant)) (hash_name (get_or t c vacant).name))
          q
  unfolding insert_slot
  spot =
      let size = length t0 in
      let s = get_or t c vacant in
      let n1 : length (cleared t c) ≡ size = length-set t c vacant ∙ inv.size in
      let way0 = table.placed c here_used0 in
      let way =
        subst (λ (k : ℕ). Leads size (fits vacant name_of t0 k) way0.0 (wrap size (hash_name k)) c)
          (sym (ap name_of here_same)) way0.1 in
      let open1 : (get_or (cleared t c) c vacant).name ≡ 0 =
        ap name_of (cleared_here t c c here_low here_low) in
      let short =
        Leads_shorter size (fits vacant name_of t0 s.name) (free vacant name_of (cleared t c))
          way0.0 (wrap size (hash_name s.name)) c (rw open1 refl) way in
      let q = short.1 in
      let way1 =
        subst
          (λ (n : ℕ).
            Leads n (free vacant name_of (cleared t c)) short.0 (wrap n (hash_name s.name)) q)
          (sym n1) short.2 in
      let power1 : IsPower (length (cleared t c)) = rw n1 table.power in
      let low1 = wrap-lt (length (cleared t c)) power1 (hash_name s.name) in
      let end =
        probe_at (length (cleared t c)) (free vacant name_of (cleared t c)) power1 c (rw open1 refl)
          (rw (length-set t c vacant) here_low) short.0
          (wrap (length (cleared t c)) (hash_name s.name)) q low1 way1 in
      let hit =
        Leads_stops (length (cleared t c)) (free vacant name_of (cleared t c)) short.0
          (wrap (length (cleared t c)) (hash_name s.name)) q way1 in
      (
        q,
        ap (λ x. set (cleared t c) x s) end,
        rw (← length-set t c vacant) (
            Leads-lt (length (cleared t c)) (free vacant name_of (cleared t c)) power1 short.0
              (wrap (length (cleared t c)) (hash_name s.name)) q low1 way1),
        ground arith,
        taken short.4,
        short.0,
        way1,
      )
    where
      taken :
          {q : ℕ}
          → (q ≡ c) ⊎ (fits vacant name_of t0 (get_or t c vacant).name q ≡ false)
          → (get_or t0 q vacant).name ≢ 0
      taken (inl e) z = here_used0 (sym (ap (λ x. (get_or t0 x vacant).name) e) ∙ z)
      taken (inr miss) z = ground arith

  module _ (q : ℕ) (q_low : q < length t) (q_free : (get_or (cleared t c) q vacant).name ≡ 0)
      (q_taken : (get_or t0 q vacant).name ≢ 0) where
    moved_same : (i : ℕ) → i ≢ c → i ≢ q → get_or (moved t c q) i vacant ≡ get_or t i vacant
    moved_same i apart apart' =
        moved_there t c q here_low q_low i apart' ∙ cleared_there t c q here_low q_low i apart

    next_vacated :
        (i : ℕ) → key_at vacant name_of t0 i ≡ 0 → key_at vacant name_of (moved t c q) i ≡ 0
    next_vacated i gone =
        let apart : i ≢ c = λ e. here_used0 (ap (λ x. (get_or t0 x vacant).name) (sym e) ∙ gone) in
        let apart' : i ≢ q = λ e. q_taken (ap (λ x. (get_or t0 x vacant).name) (sym e) ∙ gone) in
        ap name_of (moved_same i apart apart') ∙ inv.vacated i gone

    next_pending :
        (i j : ℕ)
        → Passes (length t0) (vacant_at t0) j (wrap (length t0) (c + 1)) i
        → get_or (moved t c q) i vacant ≡ get_or t0 i vacant
    next_pending i j way =
        let apart = Passes-apart (length t0) (vacant_at t0) j k c i inv.run.0 inv.run.1 way in
        let same = inv.pending i (suc j) (inv.run.1.0, way) in
        let end = Passes-end (length t0) (vacant_at t0) j (wrap (length t0) (c + 1)) i way in
        let named : (get_or t i vacant).name ≢ 0 =
          λ z. let z0 : (get_or t0 i vacant).name ≡ 0 = sym (ap name_of same) ∙ z in ground arith in
        moved_after t c q here_low q_low q_free i apart named ∙ same

    next_settled :
        (steps : ℕ)
        → Leads
            (length (cleared t c))
            (free vacant name_of (cleared t c))
            steps
            (wrap (length (cleared t c)) (hash_name (get_or t c vacant).name))
            q
        → (i : ℕ) → key_at vacant name_of (moved t c q) i ≢ 0
        → ((j : ℕ) → Passes (length t0) (vacant_at t0) j (wrap (length t0) (c + 1)) i → ⊥)
        → IsPlaced vacant name_of hash_name (moved t c q) i
    next_settled steps way i named off = elim (same_or_apart i q) [
      | inl e ↦
          subst (λ x. IsPlaced vacant name_of hash_name (moved t c q) x) (sym e)
            (insert_new vacant name_of hash_name (cleared t c) (get_or t c vacant) q
              (rw (length-set t c vacant, inv.size) table.power)
              (moved_alone t c q here_low q_low q_free inv.distinct here_used) steps way)
      | inr apart ↦
          let before = moved_before t c q here_low q_low i apart named in
          let named' : (get_or t i vacant).name ≢ 0 = λ z. named (ap name_of before.1 ∙ z) in
          let off' =
            λ (j : ℕ) (w : Passes (length t0) (vacant_at t0) j c i). off_run j before.0 w in
          insert_old vacant name_of hash_name (cleared t c) (get_or t c vacant) q q_free i apart (
            erase_old vacant name_of hash_name t vacant c i before.0 (unreached named' off')
              (inv.settled i named' off'))
    ]
      where
        off_run : (j : ℕ) → i ≢ c → Passes (length t0) (vacant_at t0) j c i → ⊥
        off_run zero apart (_, e) = apart (sym e)
        off_run (suc j) apart (_, rest) = off j rest

        stays : (x : ℕ) → (get_or t x vacant).name ≢ 0 → vacant_at t0 x ≡ false
        stays x h = elim (Bool-cases (vacant_at t0 x)) [
          | inl gone ↦ absurd (h (inv.vacated x (ground arith)))
          | inr kept ↦ kept
        ]

        unreached :
            (get_or t i vacant).name ≢ 0
            → ((j : ℕ) → Passes (length t0) (vacant_at t0) j c i → ⊥)
            → (j : ℕ) → Leads (length t) (fits vacant name_of t (key_at vacant name_of t i)) j c i
            → ⊥
        unreached named' off' j w = off' j (
            Leads-Passes (length t0) (fits vacant name_of t (key_at vacant name_of t i))
              (vacant_at t0) (λ x miss. stays x (ground arith)) j c i (stays i named')
              (subst (λ n. Leads n (fits vacant name_of t (key_at vacant name_of t i)) j c i)
                inv.size w))

    pub next_IsReinserting :
        (steps : ℕ)
        → Leads
            (length (cleared t c))
            (free vacant name_of (cleared t c))
            steps
            (wrap (length (cleared t c)) (hash_name (get_or t c vacant).name))
            q
        → IsReinserting t0 name (moved t c q) (wrap (length t0) (c + 1)) k
    next_IsReinserting steps way = record {
      size = length-moved t c q here_low q_low ∙ inv.size;
      vacated = next_vacated;
      run = (inv.run.0, inv.run.1.1);
      pending = next_pending;
      settled = next_settled steps way;
      distinct = moved-IsDistinct t c q here_low q_low q_free inv.distinct here_used;
      held = λ slot used. (
        λ h. (inv.held slot used).0 ((moved-Has t c q here_low q_low q_free slot used).0 h),
        λ h. (moved-Has t c q here_low q_low q_free slot used).1 ((inv.held slot used).1 h),
      );
    }
