-- ===== src/Json/Unicode/Canonical.antt =====
-- What the UTF-8 decoder of json_unicode.hpp accepts.
use server_engine_v.Common.{
  ℕ, ◌+◌, ◌*◌, ◌/◌, ◌%◌, ◌≤◌, ◌<◌, ◌≡◌, sym, ◌∙◌, ap, subst, true, [], ◌∷◌, ◌++◌, arith, ltb, leb,
  ◌==◌, ◌≢◌, leb→le, length, take, Bool-cases, inl, inr,
}
use server_engine_v.Text.{Text}
use server_engine_v.Json.Unicode.Roundtrip.{decode-append}
use server_engine_v.Json.Unicode.{
  json_is_unicode_scalar, json_is_surrogate, utf8, json_append_utf8, JsonUtf8Result, ok, finish,
  decode_rest, json_decode_utf8_one,
}

-- The bytes of a code point of two, three or four bytes that was put together from them.
two_bytes : (a b : ℕ) → 0xc2 ≤ a → a ≤ 0xdf → b / 64 ≡ 2 → utf8 (a % 32 * 64 + b % 64) ≡ a ∷ b ∷ []
unfolding utf8
two_bytes a b h k u = ground arith

three_bytes :
    (a b c : ℕ)
    → 0xe0 ≤ a
    → a ≤ 0xef
    → b / 64 ≡ 2
    → c / 64 ≡ 2
    → 0x800 ≤ (a % 16 * 64 + b % 64) * 64 + c % 64
    → utf8 ((a % 16 * 64 + b % 64) * 64 + c % 64) ≡ a ∷ b ∷ c ∷ []
unfolding utf8
three_bytes a b c h k u v w = ground arith

four_bytes :
    (a b c d : ℕ)
    → 0xf0 ≤ a
    → a ≤ 0xf4
    → b / 64 ≡ 2
    → c / 64 ≡ 2
    → d / 64 ≡ 2
    → 0x1_0000 ≤ ((a % 8 * 64 + b % 64) * 64 + c % 64) * 64 + d % 64
    → utf8 (((a % 8 * 64 + b % 64) * 64 + c % 64) * 64 + d % 64) ≡ a ∷ b ∷ c ∷ d ∷ []
unfolding utf8
four_bytes a b c d h k u v w x = ground arith

abbrev IsCanonical : Text → JsonUtf8Result → Type 0
IsCanonical t r =
    r.status ≡ ok
    → (json_is_unicode_scalar r.codepoint ≡ true) × (take r.length t ≡ utf8 r.codepoint)

finish-IsCanonical :
    (t : Text) (x minimum n : ℕ)
    → (minimum ≤ x → take n t ≡ utf8 x)
    → IsCanonical t (finish x minimum n)
finish-IsCanonical t x minimum n k = elim (Bool-cases (ltb x minimum)) [
  | inl short ↦ rw short λ h. cc
  | inr enough ↦ elim (Bool-cases (json_is_unicode_scalar x)) [
    | inl scalar ↦ rw (enough, scalar) λ h. (scalar, k (ground arith))
    | inr bad ↦ rw (enough, bad) λ h. cc
  ]
]

rest-IsCanonical :
    (a b c d : ℕ) (t : Text)
    → 0xf0 ≤ a
    → a ≤ 0xf4
    → IsCanonical (a ∷ b ∷ c ∷ d ∷ t) (decode_rest (a ∷ b ∷ c ∷ d ∷ t) 0 1 3 (a % 8) 0x1_0000 4)
unfolding decode_rest
rest-IsCanonical a b c d t h k = elim (Bool-cases (b / 64 == 2)) [
  | inr u ↦ λ q. ground arith
  | inl u ↦ elim (Bool-cases (c / 64 == 2)) [
    | inr v ↦ λ q. ground arith
    | inl v ↦ elim (Bool-cases (d / 64 == 2)) [
      | inr w ↦ λ q. ground arith
      | inl w ↦
          rw (u, v, w)
            (finish-IsCanonical (a ∷ b ∷ c ∷ d ∷ t)
              (((a % 8 * 64 + b % 64) * 64 + c % 64) * 64 + d % 64) 0x1_0000 4
              λ m. sym (four_bytes a b c d h k (ground arith) (ground arith) (ground arith) m))
    ]
  ]
]

four_byte_lem :
    (a b c d : ℕ) (t : Text)
    → 0xf0 ≤ a
    → a ≤ 0xf4
    → json_decode_utf8_one (a ∷ b ∷ c ∷ d ∷ t) 0
      ≡ decode_rest (a ∷ b ∷ c ∷ d ∷ t) 0 1 3 (a % 8) 0x1_0000 4
unfolding json_decode_utf8_one
four_byte_lem a b c d t h k = ground arith

three_byte_lem :
    (a b c : ℕ) (t : Text)
    → 0xe0 ≤ a
    → a ≤ 0xef
    → json_decode_utf8_one (a ∷ b ∷ c ∷ t) 0 ≡ decode_rest (a ∷ b ∷ c ∷ t) 0 1 2 (a % 16) 0x800 3
unfolding json_decode_utf8_one
three_byte_lem a b c t h k = ground arith

rest_of_three-IsCanonical :
    (a b c : ℕ) (t : Text)
    → 0xe0 ≤ a
    → a ≤ 0xef
    → IsCanonical (a ∷ b ∷ c ∷ t) (decode_rest (a ∷ b ∷ c ∷ t) 0 1 2 (a % 16) 0x800 3)
unfolding decode_rest
rest_of_three-IsCanonical a b c t h k = elim (Bool-cases (b / 64 == 2)) [
  | inr u ↦ λ q. ground arith
  | inl u ↦ elim (Bool-cases (c / 64 == 2)) [
    | inr v ↦ λ q. ground arith
    | inl v ↦
        rw (u, v)
          (finish-IsCanonical (a ∷ b ∷ c ∷ t) ((a % 16 * 64 + b % 64) * 64 + c % 64) 0x800 3
            λ m. sym (three_bytes a b c h k (ground arith) (ground arith) m))
  ]
]

two_byte_lem :
    (a b : ℕ) (t : Text)
    → 0xc2 ≤ a
    → a ≤ 0xdf
    → json_decode_utf8_one (a ∷ b ∷ t) 0 ≡ decode_rest (a ∷ b ∷ t) 0 1 1 (a % 32) 0x80 2
unfolding json_decode_utf8_one
two_byte_lem a b t h k = ground arith

rest_of_two-IsCanonical :
    (a b : ℕ) (t : Text)
    → 0xc2 ≤ a
    → a ≤ 0xdf
    → IsCanonical (a ∷ b ∷ t) (decode_rest (a ∷ b ∷ t) 0 1 1 (a % 32) 0x80 2)
unfolding decode_rest
rest_of_two-IsCanonical a b t h k = elim (Bool-cases (b / 64 == 2)) [
  | inr u ↦ λ q. ground arith
  | inl u ↦ rw u (
      finish-IsCanonical (a ∷ b ∷ t) (a % 32 * 64 + b % 64) 0x80 2
        λ m. sym (two_bytes a b h k (ground arith)))
]

-- A byte below 0x80 is a code point, and one below 0xC2 leads nothing else.
ascii-IsCanonical :
    (a : ℕ) (t : Text) → a ≤ 0x7f → IsCanonical (a ∷ t) (json_decode_utf8_one (a ∷ t) 0)
unfolding json_decode_utf8_one utf8 json_is_unicode_scalar json_is_surrogate
ascii-IsCanonical a t k h = ground arith

no_lead : (a : ℕ) (t : Text) → 0x7f < a → a < 0xc2 → (json_decode_utf8_one (a ∷ t) 0).status ≢ ok
unfolding json_decode_utf8_one
no_lead a t k u h = ground arith

low-IsCanonical :
    (a b : ℕ) (t : Text) → a ≤ 0xdf → IsCanonical (a ∷ b ∷ t) (json_decode_utf8_one (a ∷ b ∷ t) 0)
low-IsCanonical a b t k = elim (Bool-cases (leb a 0x7f)) [
  | inl one ↦ ascii-IsCanonical a (b ∷ t) (leb→le a 0x7f one)
  | inr more ↦ elim (Bool-cases (leb 0xc2 a)) [
    | inl two ↦
        let from : 0xc2 ≤ a = ground arith in
        subst (IsCanonical (a ∷ b ∷ t)) (sym (two_byte_lem a b t from k))
          (rest_of_two-IsCanonical a b t from k)
    | inr bad ↦ λ h. absurd (no_lead a (b ∷ t) (ground arith) (ground arith) h)
  ]
]

single-IsCanonical : (a : ℕ) → IsCanonical (a ∷ []) (json_decode_utf8_one (a ∷ []) 0)
unfolding json_decode_utf8_one utf8 json_is_unicode_scalar json_is_surrogate
single-IsCanonical a h = ground arith

-- Texts that end too early, and leading bytes beyond the last one.
short_two : (a b : ℕ) → 0xdf < a → (json_decode_utf8_one (a ∷ b ∷ []) 0).status ≢ ok
unfolding json_decode_utf8_one
short_two a b k h = ground arith

short_three : (a b c : ℕ) → 0xef < a → (json_decode_utf8_one (a ∷ b ∷ c ∷ []) 0).status ≢ ok
unfolding json_decode_utf8_one
short_three a b c k h = ground arith

beyond : (a : ℕ) (t : Text) → 0xf4 < a → (json_decode_utf8_one (a ∷ t) 0).status ≢ ok
unfolding json_decode_utf8_one
beyond a t k h = ground arith

decode-IsCanonical : (t : Text) → IsCanonical t (json_decode_utf8_one t 0)
unfolding json_decode_utf8_one
decode-IsCanonical [] = λ h. cc
decode-IsCanonical (a ∷ []) = single-IsCanonical a
decode-IsCanonical (a ∷ b ∷ []) = elim (Bool-cases (leb a 0xdf)) [
  | inl low ↦ low-IsCanonical a b [] (leb→le a 0xdf low)
  | inr high ↦ λ h. absurd (short_two a b (ground arith) h)
]
decode-IsCanonical (a ∷ b ∷ c ∷ t) = elim (Bool-cases (leb a 0xdf)) [
  | inl low ↦ low-IsCanonical a b (c ∷ t) (leb→le a 0xdf low)
  | inr high ↦ elim (Bool-cases (leb a 0xef)) [
    | inl three ↦
        let from : 0xe0 ≤ a = ground arith in
        let to : a ≤ 0xef = ground arith in
        subst (IsCanonical (a ∷ b ∷ c ∷ t)) (sym (three_byte_lem a b c t from to))
          (rest_of_three-IsCanonical a b c t from to)
    | inr more ↦ longer t (ground arith)
  ]
]
  where
    longer :
        (t : Text) → 0xef < a → IsCanonical (a ∷ b ∷ c ∷ t) (json_decode_utf8_one (a ∷ b ∷ c ∷ t) 0)
    longer [] k = λ h. absurd (short_three a b c k h)
    longer (d ∷ t) k = elim (Bool-cases (leb a 0xf4)) [
      | inl four ↦
          let from : 0xf0 ≤ a = omega arith in
          let to : a ≤ 0xf4 = ground arith in
          subst (IsCanonical (a ∷ b ∷ c ∷ d ∷ t)) (sym (four_byte_lem a b c d t from to))
            (rest-IsCanonical a b c d t from to)
      | inr bad ↦ λ h. absurd (beyond a (b ∷ c ∷ d ∷ t) (ground arith) h)
    ]

-- Behind any text, where the decoder accepts a sequence, it gives a Unicode scalar value, and the
-- bytes that it read are exactly what json_append_utf8 writes for this value.
pub json_decode_utf8_one-IsCanonical :
    (before after : Text)
    → (json_decode_utf8_one (before ++ after) (length before)).status ≡ ok
    → let r = json_decode_utf8_one (before ++ after) (length before) in
      (json_is_unicode_scalar r.codepoint ≡ true)
      × (before ++ take r.length after ≡ json_append_utf8 r.codepoint before)
unfolding json_append_utf8
json_decode_utf8_one-IsCanonical before after h =
    let e = decode-append before after in
    let c = decode-IsCanonical after (ap (λ r. r.status) (sym e) ∙ h) in
    rw e (c.0, ap (λ t. before ++ t) c.1)
