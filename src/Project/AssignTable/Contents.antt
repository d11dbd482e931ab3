-- ===== src/Project/AssignTable/Contents.antt =====
-- What the table of assign_table.cpp holds after a sequence of calls.
use server_engine_v.Common.{
  take-drop-append, drop-length, ℕ, ◌+◌, ◌≤◌, ◌≡◌, refl, sym, ◌∙◌, ap, subst, Bool, true, false,
  not, ◌&&◌, List, [], ◌∷◌, ◌++◌, arith, leb, if◌then◌else◌, length, take, map, length-append,
  Bool-cases, inl, inr,
}
use mathlib.Core.List.{append_assoc, append-nil}
use server_engine_v.Text.{Text, text_empty}
use server_engine_v.Status.{success, project_configuration_invalid}
use server_engine_v.Project.AssignTable.{
  AssignRecord, AssignTable, maximum, add, clear, text, source, target, add_all,
}

-- The entries lie inside the arena, and the arena is addressed by 32 bits.
abbrev IsInside : ℕ → AssignRecord → Type 0
IsInside n r = (r.source_offset + r.source_length ≤ n) × (r.target_offset + r.target_length ≤ n)

abbrev AllInside : ℕ → List AssignRecord → Type 0
AllInside n [] = Unit {0}
AllInside n (r ∷ rs) = IsInside n r × AllInside n rs

pub record IsSealed (t : AssignTable) : Type 0 where
  pub inside : AllInside (length t.bytes) t.entries
  pub addressed : length t.bytes ≤ maximum

abbrev pub pairs_of : AssignTable → List AssignRecord → List (Text × Text)
pairs_of t = map λ r. (source t r, target t r)

abbrev pub pairs : AssignTable → List (Text × Text)
pairs t = pairs_of t t.entries

-- The pairs that fit, from an arena of `n` bytes on.
abbrev pub fits : ℕ → Text → Text → Bool
fits n s x = not (text_empty s) && not (text_empty x) && leb (n + length s + length x) maximum

unfoldable pub fitting : ℕ → List (Text × Text) → List (Text × Text)
fitting n [] = []
fitting n ((s, x) ∷ ps) =
    let rest = fitting n ps in
    let more = fitting (n + length s + length x) ps in if fits n s x then (s, x) ∷ more else rest

text_stays :
    (t : AssignTable) (es : List AssignRecord) (more : Text) (o n : ℕ)
    → o + n ≤ length t.bytes
    → text (record { entries = es; bytes = t.bytes ++ more }) o n ≡ text t o n
unfolding text
text_stays t es more o n h =
    ground (arith, length-append t.bytes more, take-drop-append o n t.bytes more h)

pairs_stay :
    (t : AssignTable) (es : List AssignRecord) (more : Text) (rs : List AssignRecord)
    → AllInside (length t.bytes) rs
    → pairs_of (record { entries = es; bytes = t.bytes ++ more }) rs ≡ pairs_of t rs
unfolding source target
pairs_stay t es more [] a = refl
pairs_stay t es more (r ∷ rs) a = ground (
  arith,
  text_stays t es more r.source_offset r.source_length a.0.0,
  text_stays t es more r.target_offset r.target_length a.0.1,
  pairs_stay t es more rs a.1,
)

AllInside-weaken : (m n : ℕ) (rs : List AssignRecord) → m ≤ n → AllInside m rs → AllInside n rs
AllInside-weaken m n [] h a = tt
AllInside-weaken m n (r ∷ rs) h a =
    ((omega (arith, a.0.0), omega (arith, a.0.1)), AllInside-weaken m n rs h a.1)

AllInside-snoc :
    (n : ℕ) (rs : List AssignRecord) (r : AssignRecord)
    → AllInside n rs
    → IsInside n r
    → AllInside n (rs ++ r ∷ [])
AllInside-snoc n [] r a i = (i, tt)
AllInside-snoc n (q ∷ rs) r a i = (a.0, AllInside-snoc n rs r a.1 i)

pairs_of-snoc :
    (t : AssignTable) (rs : List AssignRecord) (r : AssignRecord)
    → pairs_of t (rs ++ r ∷ []) ≡ pairs_of t rs ++ (source t r, target t r) ∷ []
pairs_of-snoc t [] r = refl
pairs_of-snoc t (q ∷ rs) r = ap (λ l. (source t q, target t q) ∷ l) (pairs_of-snoc t rs r)

take-all : (xs : Text) → take (length xs) xs ≡ xs
take-all [] = refl
take-all (x ∷ xs) = ap (λ l. x ∷ l) (take-all xs)

abbrev arena : AssignTable → Text → Text → Text
arena t s x = (t.bytes ++ s) ++ x

abbrev entry : AssignTable → Text → Text → AssignRecord
entry t s x = record {
  source_offset = length t.bytes;
  source_length = length s;
  target_offset = length t.bytes + length s;
  target_length = length x;
}

abbrev added : AssignTable → Text → Text → AssignTable
added t s x = record { bytes = arena t s x; entries = t.entries ++ entry t s x ∷ [] }

length-arena :
    (t : AssignTable) (s x : Text) → length (arena t s x) ≡ length t.bytes + length s + length x
length-arena t s x = omega (arith, length-append (t.bytes ++ s) x, length-append t.bytes s)

add_lem :
    (t : AssignTable) (s x : Text)
    → add t s x ≡ (
        if fits (length t.bytes) s x
        then (added t s x, success)
        else (t, project_configuration_invalid))
unfolding add text_empty
add_lem t s x = ground arith

source-entry : (t : AssignTable) (s x : Text) → source (added t s x) (entry t s x) ≡ s
unfolding source text
source-entry t s x =
    let n = length-arena t s x in
    let inner =
      take-drop-append (length t.bytes) (length s) (t.bytes ++ s) x
        (omega (arith, length-append t.bytes s)) in
    ground (arith, n, inner, drop-length t.bytes s, take-all s)

target-entry : (t : AssignTable) (s x : Text) → target (added t s x) (entry t s x) ≡ x
unfolding target text
target-entry t s x =
    let n = length-arena t s x in
    let m = length-append t.bytes s in
    ground (arith, n, m, drop-length (t.bytes ++ s) x, take-all x)

added-IsSealed :
    (t : AssignTable) (s x : Text)
    → IsSealed t
    → length t.bytes + length s + length x ≤ maximum
    → IsSealed (added t s x)
added-IsSealed t s x v h =
    let n = length-arena t s x in
    record {
      inside =
          AllInside-snoc (length (arena t s x)) t.entries (entry t s x)
            (AllInside-weaken (length t.bytes) (length (arena t s x)) t.entries (omega (arith, n))
              v.inside)
            (omega (arith, n), omega (arith, n));
      addressed = omega (arith, n);
    }

pairs-added :
    (t : AssignTable) (s x : Text) → IsSealed t → pairs (added t s x) ≡ pairs t ++ (s, x) ∷ []
pairs-added t s x v =
    let es = (added t s x).entries in
    let moved =
      ap (λ b. pairs_of (record { entries = es; bytes = b }) t.entries) (append_assoc t.bytes s x)
      ∙ pairs_stay t es (s ++ x) t.entries v.inside in
    pairs_of-snoc (added t s x) t.entries (entry t s x)
    ∙ ap (λ l. l ++ (source (added t s x) (entry t s x), target (added t s x) (entry t s x)) ∷ [])
        moved
    ∙ ap (λ l. pairs t ++ (l, target (added t s x) (entry t s x)) ∷ []) (source-entry t s x)
    ∙ ap (λ l. pairs t ++ (s, l) ∷ []) (target-entry t s x)

-- A sealed table of these pairs.
abbrev Holds : List (Text × Text) → AssignTable → Type 0
Holds l t = (pairs t ≡ l) × IsSealed t

-- What one `add` leaves, once it is known whether the pair fits.
add_at :
    (t : AssignTable) (s x : Text) (b : Bool)
    → fits (length t.bytes) s x ≡ b
    → (add t s x).0 ≡ (if b then added t s x else t)
add_at t s x b e = ground (arith, add_lem t s x)

add_all_lem :
    (t : AssignTable) (ps : List (Text × Text))
    → IsSealed t
    → Holds (pairs t ++ fitting (length t.bytes) ps) (add_all t ps)
unfolding add_all fitting
add_all_lem t [] v = (sym (append-nil (pairs t)), v)
add_all_lem t ((s, x) ∷ ps) v = elim (Bool-cases (fits (length t.bytes) s x)) [
  | inl good ↦
      let room : length t.bytes + length s + length x ≤ maximum = ground arith in
      let rest = add_all_lem (added t s x) ps (added-IsSealed t s x v room) in
      rw good (
        subst
          (λ r.
            Holds (pairs t ++ (s, x) ∷ fitting (length t.bytes + length s + length x) ps)
              (add_all r ps))
          (sym (add_at t s x true good))
          (
            rest.0
                ∙ ap (λ l. l ++ fitting (length (arena t s x)) ps) (pairs-added t s x v)
                ∙ append_assoc (pairs t) ((s, x) ∷ []) (fitting (length (arena t s x)) ps)
                ∙ ap (λ n. pairs t ++ (s, x) ∷ fitting n ps) (length-arena t s x),
            rest.1,
          ))
  | inr bad ↦ rw bad (
      subst (λ r. Holds (pairs t ++ fitting (length t.bytes) ps) (add_all r ps))
        (sym (add_at t s x false bad)) (add_all_lem t ps v))
]

-- After a clear, adding pairs in turn leaves a table whose records read back exactly the pairs that
-- fit, in order: those of nonempty texts for which the arena stays within 32-bit offsets. The arena
-- never grows beyond them.
pub add_all-clear :
    (t : AssignTable) (ps : List (Text × Text))
    → (pairs (add_all (clear t) ps) ≡ fitting 0 ps)
      × (length (add_all (clear t) ps).bytes ≤ maximum)
unfolding clear
add_all-clear t ps =
    let r = add_all_lem (clear t) ps (record { inside = tt; addressed = omega arith }) in
    (r.0, r.1.addressed)
