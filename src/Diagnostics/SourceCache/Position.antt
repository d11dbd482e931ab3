-- ===== src/Diagnostics/SourceCache/Position.antt =====
-- The position of an offset, against a walk over the text.
use server_engine_v.Common.{
  ℕ, zero, suc, ◌+◌, ◌-◌, ◌%◌, ◌≤◌, ◌<◌, ◌^◌, ◌≡◌, refl, sym, ◌∙◌, ap, subst, false, some, List, [],
  ◌∷◌, ◌++◌, arith, ltb, ◌==◌, if◌then◌else◌, length, get_elem?, get_or,
}
use server_engine_v.Text.{Text}
use server_engine_v.Diagnostics.{DiagnosticLocation}
use server_engine_v.Diagnostics.SourceCache.{
  SourceFile, narrow_offset, line_starts, build_line_offsets, add, find, upper_bound, min_size,
  line_index, locate_in, locate,
}

-- The line and the column after `o` characters, from the line `l` and the column `k` on.
unfoldable pub walk : ℕ → Text → ℕ → ℕ → ℕ × ℕ
walk zero cs l k = (l, k)
walk (suc o) [] l k = (l, k)
walk (suc o) (c ∷ []) l k = (l, k + 1)
walk (suc o) (c ∷ d ∷ cs) l k =
    let next = walk o (d ∷ cs) (l + 1) 1 in
    let same = walk o (d ∷ cs) l (k + 1) in if c == 10 then next else same

no_start :
    (cs : Text) (i v : ℕ) → i + length cs < 2 ^ 32 → v ≤ i → upper_bound (line_starts cs i) v ≡ 0
unfolding upper_bound line_starts narrow_offset
no_start [] i v w h = refl
no_start (c ∷ []) i v w h = refl
no_start (c ∷ d ∷ cs) i v w h = ground (arith, no_start (d ∷ cs) (i + 1) v)

walk_lem :
    (o : ℕ) (cs : Text) (i b l : ℕ)
    → i + length cs < 2 ^ 32
    → o ≤ length cs
    → b ≤ i
    → let k = upper_bound (line_starts cs i) (i + o) in
      walk o cs l (i - b + 1) ≡ (l + k, i + o - get_or (b ∷ line_starts cs i) k 0 + 1)
unfolding walk upper_bound line_starts narrow_offset
walk_lem zero cs i b l w h p = ground (arith, no_start cs i (i + 0))
walk_lem (suc o) [] i b l w h p = absurd (omega arith)
walk_lem (suc o) (c ∷ []) i b l w h p = ground arith
walk_lem (suc o) (c ∷ d ∷ cs) i b l w h p =
    ground (arith, walk_lem o (d ∷ cs) (i + 1) (i + 1) (l + 1), walk_lem o (d ∷ cs) (i + 1) b l)

walk_bound :
    (o : ℕ) (cs : Text) (l k : ℕ)
    → ((walk o cs l k).0 ≤ l + length cs) × ((walk o cs l k).1 ≤ k + length cs)
unfolding walk
walk_bound zero cs l k = (omega arith, omega arith)
walk_bound (suc o) [] l k = (omega arith, omega arith)
walk_bound (suc o) (c ∷ []) l k = (omega arith, omega arith)
walk_bound (suc o) (c ∷ d ∷ cs) l k =
    ground (arith, walk_bound o (d ∷ cs) (l + 1) 1, walk_bound o (d ∷ cs) l (k + 1))

get_elem?-snoc : {A : Type 0} (xs : List A) (x : A) → get_elem? (xs ++ x ∷ []) (length xs) ≡ some x
get_elem?-snoc [] x = refl
get_elem?-snoc (y ∷ xs) x = get_elem?-snoc xs x

abbrev stored : List SourceFile → Text → Text → SourceFile
stored files path text = record {
  id = length files;
  path = path;
  text = text;
  line_offsets = 0 ∷ line_starts text 0;
}

narrow_offset_small : (n : ℕ) → n < 2 ^ 32 → narrow_offset n ≡ n
unfolding narrow_offset
narrow_offset_small n h = ground arith

-- The pair that `locate_in` computes from an offset inside the text.
position_lem :
    (text : Text) (o : ℕ)
    → length text + 1 < 2 ^ 32
    → o ≤ length text
    → let offsets = 0 ∷ line_starts text 0 in
      let index = line_index (upper_bound offsets (narrow_offset o)) in
      (narrow_offset (index + 1), narrow_offset (o - get_or offsets index 0 + 1)) ≡ walk o text 1 1
unfolding upper_bound
position_lem text o w h =
    let starts = line_starts text 0 in
    let plain : 0 + o ≡ o = omega arith in
    let k = upper_bound starts o in
    let at : walk o text 1 1 ≡ (1 + k, o - get_or (0 ∷ starts) k 0 + 1) =
      subst
        (λ t.
          walk o text 1 1
          ≡ (1 + upper_bound starts t, t - get_or (0 ∷ starts) (upper_bound starts t) 0 + 1))
        plain (walk_lem o text 0 0 1 (omega arith) h (omega arith)) in
    let bound = walk_bound o text 1 1 in
    let line : 1 + k ≤ 1 + length text = subst (λ p. p.0 ≤ 1 + length text) at bound.0 in
    let column : o - get_or (0 ∷ starts) k 0 + 1 ≤ 1 + length text =
      subst (λ p. p.1 ≤ 1 + length text) at bound.1 in
    let positive : ltb o 0 ≡ false = ground arith in
    rw (narrow_offset_small o (omega arith), positive)
      (rw
        (
          narrow_offset_small (k + 1) (omega arith),
          narrow_offset_small (o - get_or (0 ∷ starts) k 0 + 1) (omega arith),
        )
        (ap (λ n. (n, o - get_or (0 ∷ starts) k 0 + 1)) (omega arith) ∙ sym at))

locate-found :
    (files : List SourceFile) (id offset size : ℕ) (f : SourceFile)
    → get_elem? files id ≡ some f
    → locate files id offset size ≡ locate_in f id offset size
unfolding locate find
locate-found files id offset size f h = ground (arith, h)

locate_in_lem :
    (id : ℕ) (path text : Text) (offset size : ℕ)
    → length text + 1 < 2 ^ 32
    → let o = min_size offset (length text) in
      let f : SourceFile = record {
        id = id;
        path = path;
        text = text;
        line_offsets = 0 ∷ line_starts text 0;
      } in
      locate_in f id offset size ≡ record {
        file = path;
        offset = o;
        length = min_size size (length text - o);
        line = (walk o text 1 1).0;
        column = (walk o text 1 1).1;
        file_id = id;
      }
locate_in_lem id path text offset size w =
    let o = min_size offset (length text) in
    let n = min_size size (length text - o) in
    let inside : o ≤ length text = ground arith in
    let rest : n < 2 ^ 32 = ground arith in
    let at = position_lem text o w inside in
    placed (ap (λ p. p.0) at) (ap (λ p. p.1) at) (narrow_offset_small o (omega arith))
      (narrow_offset_small n rest)
  where
    at_place : ℕ → ℕ → ℕ → ℕ → DiagnosticLocation
    at_place a n l c = record {
      file = path;
      offset = a;
      length = n;
      line = l;
      column = c;
      file_id = id;
    }

    placed :
        {l l' c c' a a' n n' : ℕ}
        → l ≡ l'
        → c ≡ c'
        → a ≡ a'
        → n ≡ n'
        → at_place a n l c ≡ at_place a' n' l' c'
    placed e f g h = rw (e, f, g, h) refl

-- A text that was just added is found under its id, and an offset into it is located as a walk over
-- the text counts lines and columns, both from 1, where a line break that is not the last character
-- starts a line. An offset beyond the text is taken back to its end, and a length to what is left.
-- The text is shorter than 2^32 - 1 bytes, and there are fewer than 2^32 files.
pub locate-add :
    (files : List SourceFile) (path text : Text) (offset size : ℕ)
    → length files < 2 ^ 32
    → length text + 1 < 2 ^ 32
    → let (files', id) = add files path text in
      let o = min_size offset (length text) in
      let (line, column) = walk o text 1 1 in
      locate files' id offset size ≡ record {
        file = path;
        offset = o;
        length = min_size size (length text - o);
        line = line;
        column = column;
        file_id = length files;
      }
unfolding add build_line_offsets
locate-add files path text offset size m w =
    let small : length files % 2 ^ 32 ≡ length files = omega arith in
    let f : SourceFile = record {
      id = length files;
      path = path;
      text = text;
      line_offsets = 0 ∷ line_starts text 0;
    } in
    rw small (
      locate-found (files ++ f ∷ []) (length files) offset size f (get_elem?-snoc files f)
      ∙ locate_in_lem (length files) path text offset size w)
