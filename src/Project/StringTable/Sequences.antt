-- ===== src/Project/StringTable/Sequences.antt =====
-- Sequences of calls of intern of string_table.cpp.
use server_engine_v.Common.{ℕ, ◌≡◌, ◌≢◌, refl, sym, ap, ◌∙◌, true, List, [], ◌∷◌, inl, inr}
use server_engine_v.Text.{Text}
use server_engine_v.Project.StringTable.{StringTable, get, contains, find, intern}
use server_engine_v.Project.StringTable.Reading.{IsValid}
use server_engine_v.Project.StringTable.Finding.{get-find}
use server_engine_v.Project.StringTable.Interning.{Outcome, intern-IsInterned}

-- intern, for each text in turn, with the identities that it returns
unfoldable pub intern_all : StringTable → List Text → StringTable × List (Text × ℕ)
unfolding intern
intern_all t [] = (t, [])
intern_all t (value ∷ values) =
    let one = intern t value in
    let rest = intern_all one.0 values in (rest.0, (value, one.1) ∷ rest.1)

-- Each identity that is not 0 stands for its text, and the text is found under it.
abbrev pub ReadsBack : StringTable → List (Text × ℕ) → Type 0
ReadsBack t [] = Unit {0}
ReadsBack t ((value, id) ∷ rest) =
    (id ≢ 0 → (get t id ≡ value) × (find t value ≡ id)) × ReadsBack t rest

kept_through :
    (values : List Text) (t : StringTable)
    → IsValid t
    → (id : ℕ) → contains t id ≡ true
    → (contains (intern_all t values).0 id ≡ true) × (get (intern_all t values).0 id ≡ get t id)
unfolding intern_all
kept_through [] t v id h = (h, refl)
kept_through (value ∷ values) t v id h =
    let one = intern-IsInterned t v value in
    let now = one.kept id h in
    let rest = kept_through values (intern t value).0 one.valid id now.0 in (rest.0, rest.1 ∙ now.1)

intern_all-IsValid :
    (values : List Text) (t : StringTable) → IsValid t → IsValid (intern_all t values).0
unfolding intern_all
intern_all-IsValid [] t v = v
intern_all-IsValid (value ∷ values) t v =
    intern_all-IsValid values (intern t value).0 (intern-IsInterned t v value).valid

-- After interning texts in turn, each identity that was returned reads back as its text, and each of these texts
-- is found under its identity; the identities from before keep their texts.
pub intern_all-ReadsBack :
    (values : List Text) (t : StringTable)
    → IsValid t
    → ReadsBack (intern_all t values).0 (intern_all t values).1
      × ((id : ℕ) → contains t id ≡ true → get (intern_all t values).0 id ≡ get t id)
unfolding intern_all
intern_all-ReadsBack [] t v = (tt, λ id h. refl)
intern_all-ReadsBack (value ∷ values) t v =
    let one = intern-IsInterned t v value in
    let rest = intern_all-ReadsBack values (intern t value).0 one.valid in
    ((first one.outcome, rest.0), λ id h. let now = one.kept id h in rest.1 id now.0 ∙ now.1)
  where
    first :
        Outcome t value (intern t value).0 (intern t value).1 (intern t value).2
        → (intern t value).1 ≢ 0
        → (get (intern_all (intern t value).0 values).0 (intern t value).1 ≡ value)
          × (find (intern_all (intern t value).0 values).0 value ≡ (intern t value).1)
    first (inr (inl (_, z, _))) h = absurd (h z)
    first (inr (inr (_, z, _, _, _))) h = absurd (h z)
    first (inl (_, _, has, read, _)) h =
        let one = intern-IsInterned t v value in
        let later = kept_through values (intern t value).0 one.valid (intern t value).1 has in
        let e = later.1 ∙ read in
        (
          e,
          sym (ap (find (intern_all (intern t value).0 values).0) e)
              ∙ get-find (intern_all (intern t value).0 values).0
                  (intern_all-IsValid values (intern t value).0 one.valid) (intern t value).1
                  later.0,
        )
