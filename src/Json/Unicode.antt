-- ===== src/Json/Unicode.antt =====
-- json/json_unicode.hpp: code points and UTF-8. Masks and shifts are written as remainders and
-- quotients, and the bitwise or of parts with no bit in common as a sum.
pub mod Roundtrip
pub mod Canonical
use server_engine_v.Common.{
  ℕ, zero, suc, ◌+◌, ◌-◌, ◌*◌, ◌/◌, ◌%◌, Bool, true, false, not, ◌&&◌, List, [], ◌∷◌, ◌++◌, ltb,
  leb, ◌==◌, if◌then◌else◌, length, get_or,
}
use server_engine_v.Text.{Text}

unfoldable pub json_is_high_surrogate : ℕ → Bool
json_is_high_surrogate value = leb 0xd800 value && leb value 0xdbff

unfoldable pub json_is_low_surrogate : ℕ → Bool
json_is_low_surrogate value = leb 0xdc00 value && leb value 0xdfff

unfoldable pub json_is_surrogate : ℕ → Bool
json_is_surrogate value = leb 0xd800 value && leb value 0xdfff

unfoldable pub json_is_unicode_scalar : ℕ → Bool
unfolding json_is_surrogate
json_is_unicode_scalar value = leb value 0x10_ffff && not (json_is_surrogate value)

-- The bytes that json_append_utf8 pushes.
unfoldable pub utf8 : ℕ → Text
utf8 codepoint =
    if leb codepoint 0x7f
    then codepoint ∷ []
    else if leb codepoint 0x7ff
    then (0xc0 + codepoint / 64 % 32) ∷ (0x80 + codepoint % 64) ∷ []
    else if leb codepoint 0xffff
    then (0xe0 + codepoint / 4096 % 16)
      ∷ (0x80 + codepoint / 64 % 64)
      ∷ (0x80 + codepoint % 64)
      ∷ []
    else (0xf0 + codepoint / 262144 % 8)
      ∷ (0x80 + codepoint / 4096 % 64)
      ∷ (0x80 + codepoint / 64 % 64)
      ∷ (0x80 + codepoint % 64)
      ∷ []

unfoldable pub json_append_utf8 : ℕ → Text → Text
unfolding utf8
json_append_utf8 codepoint output = output ++ utf8 codepoint

pub data JsonUtf8Status : Type 0 where
  ok truncated invalid_leading_byte invalid_continuation_byte : JsonUtf8Status
  overlong_sequence invalid_codepoint : JsonUtf8Status

pub record JsonUtf8Result : Type 0 where
  pub status : JsonUtf8Status
  pub codepoint : ℕ
  pub length : ℕ

abbrev pub result : JsonUtf8Status → ℕ → ℕ → JsonUtf8Result
result status codepoint length = record { status = status; codepoint = codepoint; length = length }

-- (value & 0xC0) == 0x80, of a byte
abbrev pub json_is_utf8_continuation : ℕ → Bool
json_is_utf8_continuation value = value / 64 == 2

-- The tests behind the loop.
abbrev pub finish : ℕ → ℕ → ℕ → JsonUtf8Result
finish codepoint minimum size =
    if ltb codepoint minimum
    then result overlong_sequence codepoint size
    else if not (json_is_unicode_scalar codepoint)
    then result invalid_codepoint codepoint size
    else result ok codepoint size

-- The loop from `i` on, with `left` bytes to read.
unfoldable pub decode_rest : Text → ℕ → ℕ → ℕ → ℕ → ℕ → ℕ → JsonUtf8Result
unfolding json_is_unicode_scalar
decode_rest text offset i zero codepoint minimum size = finish codepoint minimum size
decode_rest text offset i (suc left) codepoint minimum size =
    let next = get_or text (offset + i) 0 in
    let rest = decode_rest text offset (i + 1) left (codepoint * 64 + next % 64) minimum size in
    if not (json_is_utf8_continuation next) then result invalid_continuation_byte 0 i else rest

abbrev pub decode_more : Text → ℕ → ℕ → ℕ → ℕ → JsonUtf8Result
decode_more text offset left codepoint minimum =
    if ltb (length text) (offset + suc left)
    then result truncated 0 (length text - offset)
    else decode_rest text offset 1 left codepoint minimum (suc left)

unfoldable pub json_decode_utf8_one : Text → ℕ → JsonUtf8Result
unfolding decode_rest
json_decode_utf8_one text offset =
    let first = get_or text offset 0 in
    if leb (length text) offset
    then result truncated 0 0
    else if leb first 0x7f
    then result ok first 1
    else if leb 0xc2 first && leb first 0xdf
    then decode_more text offset 1 (first % 32) 0x80
    else if leb 0xe0 first && leb first 0xef
    then decode_more text offset 2 (first % 16) 0x800
    else if leb 0xf0 first && leb first 0xf4
    then decode_more text offset 3 (first % 8) 0x1_0000
    else result invalid_leading_byte 0 1
