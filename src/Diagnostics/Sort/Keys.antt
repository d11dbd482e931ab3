-- ===== src/Diagnostics/Sort/Keys.antt =====
-- The laws of the comparison of diagnostic records: of each key, and of their lexicographic
-- combination.
use server_engine_v.Common.{ℕ, ◌≡◌, refl, [], ◌∷◌, arith, compare, Ordering}
use server_engine_v.Text.{Text}
use server_engine_v.Diagnostics.{DiagnosticRecord}
use server_engine_v.Diagnostics.Sort.{then_by, compare_text, severity_value, compare_records}

abbrev pub flip : Ordering → Ordering
flip Ordering.lt = Ordering.gt
flip Ordering.eq = Ordering.eq
flip Ordering.gt = Ordering.lt

pub record IsPreorder {A : Type 0} (c : A → A → Ordering) : Type 0 where
  pub flips : (x y : A) → c y x ≡ flip (c x y)
  pub same : (x y z : A) → c x y ≡ Ordering.eq → c x z ≡ c y z
  pub less : (x y z : A) → c x y ≡ Ordering.lt → c y z ≡ Ordering.lt → c x z ≡ Ordering.lt

pub compare-IsPreorder : IsPreorder compare
compare-IsPreorder = record {
  flips = λ x y. ground arith;
  same = λ x y z h. ground arith;
  less = λ x y z h k. ground arith;
}

module _ {A B : Type 0} where
  pub key-IsPreorder :
      (c : B → B → Ordering) (f : A → B) → IsPreorder c → IsPreorder (λ x y. c (f x) (f y))
  key-IsPreorder c f p = record {
    flips = λ x y. p.flips (f x) (f y);
    same = λ x y z. p.same (f x) (f y) (f z);
    less = λ x y z. p.less (f x) (f y) (f z);
  }

module _ {A : Type 0} (c d : A → A → Ordering) (p : IsPreorder c) (q : IsPreorder d) where
  pub then_by-IsPreorder : IsPreorder (λ x y. then_by (c x y) (d x y))
  then_by-IsPreorder = record {
    flips = λ x y. ground (arith, p.flips x y, q.flips x y);
    same = λ x y z h. ground (arith, p.same x y z, q.same x y z);
    less = λ x y z h k. ground (
      arith,
      p.same x y z,
      p.less x y z,
      q.less x y z,
      p.same y z x,
      p.flips x y,
      p.flips x z,
      p.flips y z,
    );
  }

compare_text-flips : (s t : Text) → compare_text t s ≡ flip (compare_text s t)
unfolding compare_text
compare_text-flips [] [] = refl
compare_text-flips [] (d ∷ ds) = refl
compare_text-flips (c ∷ cs) [] = refl
compare_text-flips (c ∷ cs) (d ∷ ds) = ground (arith, compare_text-flips cs ds)

compare_text-same :
    (s t u : Text) → compare_text s t ≡ Ordering.eq → compare_text s u ≡ compare_text t u
unfolding compare_text
compare_text-same [] [] u h = refl
compare_text-same [] (d ∷ ds) u h = cc
compare_text-same (c ∷ cs) [] u h = cc
compare_text-same (c ∷ cs) (d ∷ ds) [] h = refl
compare_text-same (c ∷ cs) (d ∷ ds) (x ∷ xs) h = ground (arith, compare_text-same cs ds xs)

compare_text-less :
    (s t u : Text)
    → compare_text s t ≡ Ordering.lt
    → compare_text t u ≡ Ordering.lt
    → compare_text s u ≡ Ordering.lt
unfolding compare_text
compare_text-less [] [] [] h k = cc
compare_text-less [] (d ∷ ds) [] h k = cc
compare_text-less [] t (x ∷ xs) h k = refl
compare_text-less (c ∷ cs) [] u h k = cc
compare_text-less (c ∷ cs) (d ∷ ds) [] h k = cc
compare_text-less (c ∷ cs) (d ∷ ds) (x ∷ xs) h k = ground (arith, compare_text-less cs ds xs)

compare_text-IsPreorder : IsPreorder compare_text
compare_text-IsPreorder = record {
  flips = compare_text-flips;
  same = compare_text-same;
  less = compare_text-less;
}

pub compare_records-IsPreorder : IsPreorder compare_records
unfolding compare_records
compare_records-IsPreorder =
    text (λ r. r.location.file)
      (number (λ r. r.location.line)
        (number (λ r. r.location.column)
          (number (λ r. r.location.offset)
            (number (λ r. r.location.length)
              (number (λ r. r.id)
                (number (λ r. severity_value r.severity)
                  (number (λ r. r.operation)
                    (text (λ r. r.message)
                      (key-IsPreorder compare_text (λ r. r.detail) compare_text-IsPreorder)))))))))
  where
    number :
        {d : DiagnosticRecord → DiagnosticRecord → Ordering} (f : DiagnosticRecord → ℕ)
        → IsPreorder d
        → IsPreorder (λ x y. then_by (compare (f x) (f y)) (d x y))
    number {d} f q =
        then_by-IsPreorder (λ x y. compare (f x) (f y)) d
          (key-IsPreorder compare f compare-IsPreorder) q

    text :
        {d : DiagnosticRecord → DiagnosticRecord → Ordering} (f : DiagnosticRecord → Text)
        → IsPreorder d
        → IsPreorder (λ x y. then_by (compare_text (f x) (f y)) (d x y))
    text {d} f q =
        then_by-IsPreorder (λ x y. compare_text (f x) (f y)) d
          (key-IsPreorder compare_text f compare_text-IsPreorder) q
