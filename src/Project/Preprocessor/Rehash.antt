-- ===== src/Project/Preprocessor/Rehash.antt =====
-- The loop of preprocessor::ensure_capacity, which fills a new table.
use server_engine_v.Common.{
  ℕ, zero, suc, ◌+◌, ◌<◌, ◌≡◌, ◌≢◌, ◌⊎◌, ◌↔◌, refl, sym, ap, ◌∙◌, arith, ◌==◌, Bool-cases, inl, inr,
  List, [], ◌∷◌, length, get_or,
}
use server_engine_v.Project.Preprocessor.{DefineSlot, vacant, name_of, insert_slot, insert_all}
use server_engine_v.Project.Preprocessor.Occupancy.{occupied, Has, occupied-HasRoom}
use server_engine_v.Project.Preprocessor.Moves.{IsDistinct}
use server_engine_v.Project.Preprocessor.Removal.{IsDefineTable}
use server_engine_v.Project.Preprocessor.Insertion.{IsInserted, insert_slot-IsInserted}

-- the table t after the slots xs went into the table t0
pub record IsFilled (t0 xs t : List DefineSlot) : Type 0 where
  pub size : length t ≡ length t0
  pub table : IsDefineTable t
  pub held : (x : DefineSlot) → x.name ≢ 0 → Has t x ↔ (Has t0 x ⊎ Has xs x)
  pub filled : occupied t ≡ occupied t0 + occupied xs

abbrev pub IsApart : List DefineSlot → List DefineSlot → Type 0
IsApart xs t =
    (i j : ℕ) → (get_or xs i vacant).name ≢ 0 → (get_or t j vacant).name ≢ (get_or xs i vacant).name

IsDistinct-rest : (x : DefineSlot) (xs : List DefineSlot) → IsDistinct (x ∷ xs) → IsDistinct xs
IsDistinct-rest x xs distinct i j h e = let same = distinct (suc i) (suc j) h e in omega arith

-- The slots after the first are apart from the table that holds the first as well.
IsApart-rest :
    (x : DefineSlot) (xs t t' : List DefineSlot)
    → IsDistinct (x ∷ xs)
    → IsApart (x ∷ xs) t
    → IsInserted t x t'
    → IsApart xs t'
IsApart-rest x xs t t' distinct apart inserted i j h e =
    origin ((inserted.held (get_or t' j vacant) (λ z. h (sym e ∙ z))).0 (j, refl))
  where
    origin : Has t (get_or t' j vacant) ⊎ (get_or t' j vacant ≡ x) → ⊥
    origin (inl (k, same)) = apart (suc i) k h (ap name_of same ∙ e)
    origin (inr same) =
        let z : ◌≡◌ {A = ℕ} (suc i) 0 = distinct (suc i) 0 h (sym e ∙ ap name_of same) in
        absurd (omega arith)

skip_vacant :
    (x : DefineSlot) (xs t0 t : List DefineSlot)
    → x.name ≡ 0
    → IsFilled t0 xs t
    → IsFilled t0 (x ∷ xs) t
skip_vacant x xs t0 t gone f = record {
  size = f.size;
  table = f.table;
  held = λ y h. (λ a. from y ((f.held y h).0 a), λ a. (f.held y h).1 (to y h a));
  filled = ground (arith, f.filled);
}
  where
    from : (y : DefineSlot) → Has t0 y ⊎ Has xs y → Has t0 y ⊎ Has (x ∷ xs) y
    from y (inl a) = inl a
    from y (inr (i, e)) = inr (suc i, e)

    to : (y : DefineSlot) → y.name ≢ 0 → Has t0 y ⊎ Has (x ∷ xs) y → Has t0 y ⊎ Has xs y
    to y h (inl a) = inl a
    to y h (inr (zero, e)) = absurd (h (sym (ap name_of e) ∙ gone))
    to y h (inr (suc i, e)) = inr (i, e)

after_first :
    (x : DefineSlot) (xs t0 t1 t : List DefineSlot)
    → x.name ≢ 0
    → IsInserted t0 x t1
    → IsFilled t1 xs t
    → IsFilled t0 (x ∷ xs) t
after_first x xs t0 t1 t used a f = record {
  size = f.size ∙ a.size;
  table = f.table;
  held = λ y h. (λ w. from y h ((f.held y h).0 w), λ w. (f.held y h).1 (to y h w));
  filled = ground (arith, f.filled, a.filled);
}
  where
    from : (y : DefineSlot) → y.name ≢ 0 → Has t1 y ⊎ Has xs y → Has t0 y ⊎ Has (x ∷ xs) y
    from y h (inr (i, e)) = inr (suc i, e)
    from y h (inl w) = elim ((a.held y h).0 w) [ inl old ↦ inl old | inr e ↦ inr (0, sym e) ]

    to : (y : DefineSlot) → y.name ≢ 0 → Has t0 y ⊎ Has (x ∷ xs) y → Has t1 y ⊎ Has xs y
    to y h (inl w) = inl ((a.held y h).1 (inl w))
    to y h (inr (zero, e)) = inl ((a.held y h).1 (inr (sym e)))
    to y h (inr (suc i, e)) = inr (i, e)

pub insert_all-IsFilled :
    (xs t0 : List DefineSlot)
    → IsDefineTable t0
    → IsDistinct xs
    → IsApart xs t0
    → occupied t0 + occupied xs < length t0
    → IsFilled t0 xs (insert_all t0 xs)
unfolding insert_all
insert_all-IsFilled [] t0 table distinct apart room = record {
  size = refl;
  table = table;
  held = λ y h. (λ w. inl w, only_old y h);
  filled = omega arith;
}
  where
    only_old : (y : DefineSlot) → y.name ≢ 0 → Has t0 y ⊎ Has [] y → Has t0 y
    only_old y h (inl w) = w
    only_old y h (inr (i, e)) = absurd (h (sym (ap name_of e)))
insert_all-IsFilled (x ∷ xs) t0 table distinct apart room = elim (Bool-cases (x.name == 0)) [
  | inl gone ↦ rw gone (
      skip_vacant x xs t0 _ (ground arith) (
        insert_all-IsFilled xs t0 table (IsDistinct-rest x xs distinct) (λ i j. apart (suc i) j)
          (omega arith)))
  | inr kept ↦
      let used : x.name ≢ 0 = ground arith in
      let one =
        insert_slot-IsInserted t0 table x used (λ j. apart 0 j used)
          (occupied-HasRoom t0 (omega arith)) in
      rw kept (
        after_first x xs t0 (insert_slot t0 x) _ used one (
          insert_all-IsFilled xs (insert_slot t0 x) one.table (IsDistinct-rest x xs distinct)
            (IsApart-rest x xs t0 (insert_slot t0 x) distinct apart one)
            (ground (arith, one.size, one.filled))))
]
