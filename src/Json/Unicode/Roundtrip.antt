-- ===== src/Json/Unicode/Roundtrip.antt =====
-- Encoding a code point and decoding it.
use mathlib.Core.List.{append_assoc}
use server_engine_v.Common.{
  ℕ, zero, suc, ◌+◌, ◌-◌, ◌*◌, ◌/◌, ◌%◌, ◌<◌, ◌≡◌, refl, ◌∙◌, ap, true, [], ◌∷◌, ◌++◌, arith, leb,
  length, length-append, get_or, Bool-cases, inl, inr,
}
use server_engine_v.Text.{Text}
use server_engine_v.Json.Unicode.{
  json_is_unicode_scalar, json_is_surrogate, utf8, json_append_utf8, ok, result, decode_rest,
  json_decode_utf8_one,
}

get_or-append :
    (before after : Text) (i : ℕ)
    → get_or (before ++ after) (length before + i) 0 ≡ get_or after (0 + i) 0
get_or-append [] after i = refl
get_or-append (b ∷ before) after i =
    let e : suc (length before) + i ≡ suc (length before + i) = omega arith in
    ap (λ n. get_or (b ∷ before ++ after) n 0) e ∙ get_or-append before after i

-- Decoding looks only at what follows the offset.
decode_rest-append :
    (before after : Text) (i left codepoint minimum size : ℕ)
    → decode_rest (before ++ after) (length before) i left codepoint minimum size
      ≡ decode_rest after 0 i left codepoint minimum size
unfolding decode_rest
decode_rest-append before after i zero codepoint minimum size = refl
decode_rest-append before after i (suc left) codepoint minimum size =
    rw (get_or-append before after i, decode_rest-append before after (i + 1) left) refl

first_lem : (before after : Text) → get_or (before ++ after) (length before) 0 ≡ get_or after 0 0
first_lem before after =
    let e : length before ≡ length before + 0 = omega arith in
    ap (λ n. get_or (before ++ after) n 0) e ∙ get_or-append before after 0

-- Decoding behind a prefix is decoding the rest from its start.
pub decode-append :
    (before after : Text)
    → json_decode_utf8_one (before ++ after) (length before) ≡ json_decode_utf8_one after 0
unfolding json_decode_utf8_one
decode-append before after = ground (
  arith,
  first_lem before after,
  length-append before after,
  decode_rest-append before after 1 1 (get_or after 0 0 % 32) 0x80 2,
  decode_rest-append before after 1 2 (get_or after 0 0 % 16) 0x800 3,
  decode_rest-append before after 1 3 (get_or after 0 0 % 8) 0x1_0000 4,
)

-- The loop over two, three and four bytes puts the code point together again.
two_bytes : (c : ℕ) → c < 0x800 → (0xc0 + c / 64 % 32) % 32 * 64 + (0x80 + c % 64) % 64 ≡ c
two_bytes c h = omega arith

three_bytes :
    (c : ℕ)
    → c < 0x1_0000
    → ((0xe0 + c / 4096 % 16) % 16 * 64 + (0x80 + c / 64 % 64) % 64) * 64 + (0x80 + c % 64) % 64 ≡ c
three_bytes c h = omega arith

four_bytes :
    (c : ℕ)
    → c < 0x11_0000
    → (((0xf0 + c / 262144 % 8) % 8 * 64 + (0x80 + c / 4096 % 64) % 64) * 64
            + (0x80 + c / 64 % 64) % 64)
          * 64
        + (0x80 + c % 64) % 64
      ≡ c
four_bytes c h = omega arith

continues : (n : ℕ) → n < 64 → (0x80 + n) / 64 ≡ 2
continues n h = omega arith

decode-utf8 :
    (codepoint : ℕ) (after : Text)
    → json_is_unicode_scalar codepoint ≡ true
    → json_decode_utf8_one (utf8 codepoint ++ after) 0
      ≡ result ok codepoint (length (utf8 codepoint))
unfolding json_decode_utf8_one utf8 json_is_unicode_scalar json_is_surrogate
decode-utf8 codepoint after h = elim (Bool-cases (leb codepoint 0x7f)) [
  | inl one ↦ ground arith
  | inr more ↦ elim (Bool-cases (leb codepoint 0x7ff)) [
    | inl two ↦
        ground (arith, two_bytes codepoint (ground arith), continues (codepoint % 64) (omega arith))
    | inr more₂ ↦ elim (Bool-cases (leb codepoint 0xffff)) [
      | inl three ↦ ground (
        arith,
        three_bytes codepoint (ground arith),
        continues (codepoint / 64 % 64) (omega arith),
        continues (codepoint % 64) (omega arith),
      )
      | inr four ↦ ground (
        arith,
        four_bytes codepoint (ground arith),
        continues (codepoint / 4096 % 64) (omega arith),
        continues (codepoint / 64 % 64) (omega arith),
        continues (codepoint % 64) (omega arith),
      )
    ]
  ]
]

-- What json_append_utf8 writes for a Unicode scalar value behind any text is decoded there, whatever
-- follows: with status ok, to that value, over the bytes that were written.
pub json_decode_utf8_one-json_append_utf8 :
    (codepoint : ℕ) (before after : Text)
    → json_is_unicode_scalar codepoint ≡ true
    → json_decode_utf8_one (json_append_utf8 codepoint before ++ after) (length before) ≡ record {
      status = ok;
      codepoint = codepoint;
      length = length (json_append_utf8 codepoint before) - length before;
    }
unfolding json_append_utf8
json_decode_utf8_one-json_append_utf8 codepoint before after h =
    let size : length (utf8 codepoint) ≡ length (before ++ utf8 codepoint) - length before =
      omega (arith, length-append before (utf8 codepoint)) in
    ap (λ t. json_decode_utf8_one t (length before)) (append_assoc before (utf8 codepoint) after)
    ∙ decode-append before (utf8 codepoint ++ after)
    ∙ decode-utf8 codepoint after h
    ∙ ap (λ n. result ok codepoint n) size
