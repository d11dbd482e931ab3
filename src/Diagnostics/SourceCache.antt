-- ===== src/Diagnostics/SourceCache.antt =====
-- diagnostics/diagnostic_source_cache.{hpp,cpp}: the source texts of one collection, with the starts of
-- their lines. A line break at the very end of a text starts no line.
pub mod Position
use server_engine_v.Common.{
  ℕ, zero, suc, ◌+◌, ◌-◌, ◌%◌, ◌^◌, Bool, true, false, ◌||◌, Option, none, some, List, [], ◌∷◌,
  ◌++◌, ltb, leb, ◌==◌, if◌then◌else◌, length, get_elem?, get_or, take, drop,
}
use server_engine_v.Text.{Text}
use server_engine_v.Diagnostics.{DiagnosticLocation, no_location}

pub record SourceFile : Type 0 where
  pub id : ℕ
  pub path : Text
  pub text : Text
  pub line_offsets : List ℕ

unfoldable pub narrow_offset : ℕ → ℕ
narrow_offset value = if ltb 0xffff_ffff value then 0xffff_ffff else value

-- The offsets that the loop of build_line_offsets pushes from index `i` on.
unfoldable pub line_starts : Text → ℕ → List ℕ
line_starts [] i = []
line_starts (c ∷ []) i = []
line_starts (c ∷ d ∷ cs) i =
    let rest = line_starts (d ∷ cs) (i + 1) in
    if c == 10 then narrow_offset (i + 1) ∷ rest else rest

unfoldable pub build_line_offsets : Text → List ℕ
build_line_offsets text = 0 ∷ line_starts text 0

-- The cache with the new file, and its id.
unfoldable pub add : List SourceFile → Text → Text → List SourceFile × ℕ
unfolding build_line_offsets
add files path text =
    let id = length files % 2 ^ 32 in
    (
      files
          ++ record { id = id; path = path; text = text; line_offsets = build_line_offsets text }
            ∷ [],
      id,
    )

unfoldable pub find : List SourceFile → ℕ → Option SourceFile
find files id = get_elem? files id

-- std::upper_bound on a sorted list, as a distance: the elements that are not greater come first.
unfoldable pub upper_bound : List ℕ → ℕ → ℕ
upper_bound [] v = 0
upper_bound (x ∷ xs) v = let rest = upper_bound xs v in if ltb v x then 0 else suc rest

abbrev pub min_size : ℕ → ℕ → ℕ
min_size a b = if ltb b a then b else a

-- The index of the line from the position that upper_bound found.
abbrev pub line_index : ℕ → ℕ
line_index zero = 0
line_index (suc n) = n

abbrev pub locate_in : SourceFile → ℕ → ℕ → ℕ → DiagnosticLocation
locate_in f id offset size =
    let safe_offset = min_size offset (length f.text) in
    let index = line_index (upper_bound f.line_offsets (narrow_offset safe_offset)) in
    record {
      file = f.path;
      offset = narrow_offset safe_offset;
      length = narrow_offset (min_size size (length f.text - safe_offset));
      line = narrow_offset (index + 1);
      column = narrow_offset (safe_offset - get_or f.line_offsets index 0 + 1);
      file_id = id;
    }

unfoldable pub locate : List SourceFile → ℕ → ℕ → ℕ → DiagnosticLocation
unfolding find
locate files id offset size = elim (find files id) [
  | none ↦ record no_location {
    offset = narrow_offset offset;
    length = narrow_offset size;
    file_id = id;
  }
  | some f ↦ locate_in f id offset size
]

-- value.remove_suffix while the last character is a line break or a carriage return
unfoldable pub trim_end : Text → Text
trim_end [] = []
trim_end (c ∷ cs) = elim (trim_end cs) [
  | [] ↦ if c == 10 || c == 13 then [] else c ∷ []
  | d ∷ ds ↦ c ∷ d ∷ ds
]

abbrev pub line_of : SourceFile → ℕ → Text
line_of f line =
    if line == 0 || ltb (length f.line_offsets) line
    then []
    else let begin = get_or f.line_offsets (line - 1) 0 in
      let end =
        if ltb line (length f.line_offsets) then get_or f.line_offsets line 0 else length f.text in
      trim_end (take (end - begin) (drop begin f.text))

unfoldable pub line_text : List SourceFile → ℕ → ℕ → Text
unfolding find trim_end
line_text files id line = elim (find files id) [ none ↦ [] | some f ↦ line_of f line ]
