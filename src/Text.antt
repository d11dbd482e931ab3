-- ===== src/Text.antt =====
-- Byte strings (std::string, std::string_view, the text of a std::filesystem::path): lists of bytes.
use Prim.Native.Char.{code}
use Prim.Native.String.{String}
use server_engine_v.Common.{ℕ, ◌≡◌, refl, Bool, true, false, ◌&&◌, List, [], ◌∷◌, arith, ◌==◌}

abbrev pub Text : Type 0
Text = List ℕ

-- The bytes of an ASCII literal.
abbrev pub codes : String → Text
codes String.[] = []
codes (String.◌∷◌ c s) = code c ∷ codes s

unfoldable pub text_empty : Text → Bool
text_empty [] = true
text_empty (c ∷ cs) = false

unfoldable pub text_eq : Text → Text → Bool
text_eq [] [] = true
text_eq [] (d ∷ ds) = false
text_eq (c ∷ cs) [] = false
text_eq (c ∷ cs) (d ∷ ds) = c == d && text_eq cs ds

pub text_eq_refl : (s : Text) → text_eq s s ≡ true
unfolding text_eq
text_eq_refl [] = refl
text_eq_refl (c ∷ cs) = ground (arith, text_eq_refl cs)

pub text_eq_sound : (s t : Text) → text_eq s t ≡ true → s ≡ t
unfolding text_eq
text_eq_sound [] [] h = refl
text_eq_sound [] (d ∷ ds) h = cc
text_eq_sound (c ∷ cs) [] h = cc
text_eq_sound (c ∷ cs) (d ∷ ds) h = ground (arith, text_eq_sound cs ds)
