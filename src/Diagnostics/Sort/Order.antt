-- ===== src/Diagnostics/Sort/Order.antt =====
-- What the deterministic sort of diagnostic_collection.cpp gives.
use mathlib.Core.List.{Perm}
use mathlib.Core.List.Perm
use server_engine_v.Common.{◌≡◌, refl, ◌∙◌, false, [], ◌∷◌, arith, Ordering, Bool-cases, inl, inr}
use server_engine_v.Diagnostics.{DiagnosticRecord, DiagnosticCollection}
use server_engine_v.Diagnostics.Sort.{compare_records, precedes, insert_record, sort_deterministic}
use server_engine_v.Diagnostics.Sort.Keys.{compare_records-IsPreorder}

-- No record of the list goes strictly before `r`.
abbrev pub IsLeast : DiagnosticRecord → DiagnosticCollection → Type 0
IsLeast r [] = Unit {0}
IsLeast r (x ∷ xs) = (precedes x r ≡ false) × IsLeast r xs

abbrev pub IsOrdered : DiagnosticCollection → Type 0
IsOrdered [] = Unit {0}
IsOrdered (r ∷ rs) = IsLeast r rs × IsOrdered rs

-- The records that the comparison does not tell from `r`, in their order.
unfoldable pub alike : DiagnosticRecord → DiagnosticCollection → DiagnosticCollection
alike r [] = []
alike r (x ∷ xs) = elim (compare_records x r) [ Ordering.eq ↦ x ∷ alike r xs | _ ↦ alike r xs ]

below :
    (a b c : DiagnosticRecord) → precedes b a ≡ false → precedes c b ≡ false → precedes c a ≡ false
below a b c h k =
    let p = compare_records-IsPreorder in
    ground (
      arith,
      p.flips a b,
      p.flips b c,
      p.flips a c,
      p.same a b c,
      p.less a b c,
      p.same b c a,
      p.same c a b,
    )

IsLeast-below :
    (a b : DiagnosticRecord) (xs : DiagnosticCollection)
    → precedes b a ≡ false
    → IsLeast b xs
    → IsLeast a xs
IsLeast-below a b [] h l = tt
IsLeast-below a b (x ∷ xs) h l = (below a b x h l.0, IsLeast-below a b xs h l.1)

IsLeast-insert_record :
    (a r : DiagnosticRecord) (xs : DiagnosticCollection)
    → precedes r a ≡ false
    → IsLeast a xs
    → IsLeast a (insert_record r xs)
unfolding insert_record
IsLeast-insert_record a r [] h l = (h, tt)
IsLeast-insert_record a r (x ∷ xs) h l = elim (Bool-cases (precedes x r)) [
  | inl before ↦ rw before (l.0, IsLeast-insert_record a r xs h l.1)
  | inr after ↦ rw after (h, l)
]

insert_record-IsOrdered :
    (r : DiagnosticRecord) (xs : DiagnosticCollection)
    → IsOrdered xs
    → IsOrdered (insert_record r xs)
unfolding insert_record
insert_record-IsOrdered r [] s = (tt, tt)
insert_record-IsOrdered r (x ∷ xs) s = elim (Bool-cases (precedes x r)) [
  | inl before ↦ rw before (
    IsLeast-insert_record x r xs (ground (arith, compare_records-IsPreorder.flips x r)) s.0,
    insert_record-IsOrdered r xs s.1,
  )
  | inr after ↦ rw after ((after, IsLeast-below r x xs after s.0), s)
]

insert_record-Perm :
    (r : DiagnosticRecord) (xs : DiagnosticCollection) → Perm (r ∷ xs) (insert_record r xs)
unfolding insert_record
insert_record-Perm r [] = Perm.refl (r ∷ [])
insert_record-Perm r (x ∷ xs) = elim (Bool-cases (precedes x r)) [
  | inl before ↦ rw before (Perm.trans (Perm.swap x r xs) (Perm.cons x (insert_record-Perm r xs)))
  | inr after ↦ rw after (Perm.refl (r ∷ x ∷ xs))
]

alike-insert_record :
    (q r : DiagnosticRecord) (xs : DiagnosticCollection)
    → alike q (insert_record r xs) ≡ alike q (r ∷ xs)
unfolding alike insert_record
alike-insert_record q r [] = refl
alike-insert_record q r (x ∷ xs) =
    let p = compare_records-IsPreorder in
    ground (
      arith,
      alike-insert_record q r xs,
      p.same x q r,
      p.flips r q,
      p.flips q x,
      p.same r q x,
      p.flips r x,
    )

alike-cons :
    (q x : DiagnosticRecord) (xs ys : DiagnosticCollection)
    → alike q xs ≡ alike q ys
    → alike q (x ∷ xs) ≡ alike q (x ∷ ys)
unfolding alike
alike-cons q x xs ys h = ground (arith, h)

pub sort_deterministic-IsOrdered : (ds : DiagnosticCollection) → IsOrdered (sort_deterministic ds)
unfolding sort_deterministic
sort_deterministic-IsOrdered [] = tt
sort_deterministic-IsOrdered (x ∷ xs) =
    insert_record-IsOrdered x (sort_deterministic xs) (sort_deterministic-IsOrdered xs)

pub sort_deterministic-Perm : (ds : DiagnosticCollection) → Perm ds (sort_deterministic ds)
unfolding sort_deterministic
sort_deterministic-Perm [] = Perm.refl []
sort_deterministic-Perm (x ∷ xs) =
    Perm.trans (Perm.cons x (sort_deterministic-Perm xs))
      (insert_record-Perm x (sort_deterministic xs))

pub alike-sort_deterministic :
    (r : DiagnosticRecord) (ds : DiagnosticCollection)
    → alike r (sort_deterministic ds) ≡ alike r ds
unfolding sort_deterministic
alike-sort_deterministic r [] = refl
alike-sort_deterministic r (x ∷ xs) =
    alike-insert_record r x (sort_deterministic xs)
    ∙ alike-cons r x (sort_deterministic xs) xs (alike-sort_deterministic r xs)
