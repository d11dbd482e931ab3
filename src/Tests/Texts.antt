-- ===== src/Tests/Texts.antt =====
-- UTF-8 on concrete texts.
use server_engine_v.Common.{◌-◌, ◌≡◌, refl, true, [], ◌∷◌, ◌++◌, length, take}
use server_engine_v.Text.{Text, codes}
use server_engine_v.Json.Unicode.{
  json_is_unicode_scalar, json_is_surrogate, json_append_utf8, utf8, ok, overlong_sequence,
  json_decode_utf8_one, decode_rest,
}
use server_engine_v.Json.Unicode.Roundtrip.{json_decode_utf8_one-json_append_utf8}
use server_engine_v.Json.Unicode.Canonical.{json_decode_utf8_one-IsCanonical}

euro_is_scalar : json_is_unicode_scalar 0x20ac ≡ true
unfolding json_is_unicode_scalar json_is_surrogate
euro_is_scalar = refl

euro : utf8 0x20ac ≡ 0xe2 ∷ 0x82 ∷ 0xac ∷ []
unfolding utf8
euro = refl

json_decode_utf8_one-json_append_utf8_example :
    json_decode_utf8_one (json_append_utf8 0x20ac (codes "5 ") ++ codes "!") (length (codes "5 "))
    ≡ record {
      status = ok;
      codepoint = 0x20ac;
      length = length (json_append_utf8 0x20ac (codes "5 ")) - length (codes "5 ");
    }
json_decode_utf8_one-json_append_utf8_example =
    json_decode_utf8_one-json_append_utf8 0x20ac (codes "5 ") (codes "!") euro_is_scalar

-- Three bytes for a code point that needs two.
overlong : (json_decode_utf8_one (0xe0 ∷ 0x80 ∷ 0x80 ∷ []) 0).status ≡ overlong_sequence
unfolding json_decode_utf8_one decode_rest
overlong = refl

abbrev smile : Text
smile = 0xf0 ∷ 0x9f ∷ 0x98 ∷ 0x80 ∷ 33 ∷ []

smile_is_accepted : (json_decode_utf8_one (codes "a" ++ smile) (length (codes "a"))).status ≡ ok
unfolding json_decode_utf8_one decode_rest json_is_unicode_scalar json_is_surrogate
smile_is_accepted = refl

json_decode_utf8_one-IsCanonical_example :
    let r = json_decode_utf8_one (codes "a" ++ smile) (length (codes "a")) in
    (json_is_unicode_scalar r.codepoint ≡ true)
    × (codes "a" ++ take r.length smile ≡ json_append_utf8 r.codepoint (codes "a"))
json_decode_utf8_one-IsCanonical_example =
    json_decode_utf8_one-IsCanonical (codes "a") smile smile_is_accepted
