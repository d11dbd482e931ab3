-- ===== src/License/Datetime/Roundtrip.antt =====
-- Printing a time and reading it back.
use server_engine_v.Common.{
  ℕ, ◌+◌, ◌-◌, ◌*◌, ◌/◌, ◌%◌, ◌<◌, ◌≡◌, Bool, true, not, ◌&&◌, ◌||◌, none, some, [], ◌∷◌, arith,
  ltb, leb, if◌then◌else◌,
}
use server_engine_v.Text.{Text}
use server_engine_v.License.Datetime.{
  date_ok, day_number, parse_two, parse_four, parse_digits, parse_utc_datetime,
}

-- The last digit of a number, as a character.
abbrev digit : ℕ → ℕ
digit n = 48 + n % 10

-- YYYY-MM-DDTHH:MM:SSZ
abbrev pub print_utc_datetime : ℕ → ℕ → ℕ → ℕ → ℕ → ℕ → Text
print_utc_datetime y mo d h mi s =
    digit (y / 1000)
    ∷ digit (y / 100)
    ∷ digit (y / 10)
    ∷ digit y
    ∷ 45
    ∷ digit (mo / 10)
    ∷ digit mo
    ∷ 45
    ∷ digit (d / 10)
    ∷ digit d
    ∷ 84
    ∷ digit (h / 10)
    ∷ digit h
    ∷ 58
    ∷ digit (mi / 10)
    ∷ digit mi
    ∷ 58
    ∷ digit (s / 10)
    ∷ digit s
    ∷ 90
    ∷ []

is_digit_lem : (n : ℕ) → (leb 48 (digit n) && leb (digit n) 57) ≡ true
is_digit_lem n = ground arith

two : (n : ℕ) → n < 100 → (digit (n / 10) - 48) * 10 + (digit n - 48) ≡ n
two n h = omega arith

four :
    (n : ℕ)
    → n < 10000
    → (((0 + (digit (n / 1000) - 48)) * 10 + (digit (n / 100) - 48)) * 10 + (digit (n / 10) - 48))
          * 10
        + (digit n - 48)
      ≡ n
four n h = omega arith

ranges :
    (h mi s : ℕ) (b : Bool) (t : ℕ)
    → (if ltb 23 h || ltb 59 mi || ltb 59 s then none else if not b then none else some t)
      ≡ (if leb h 23 && leb mi 59 && leb s 59 && b then some t else none)
ranges h mi s b t = ground arith

-- A printed time is read back: for a year below 10000 and two-digit numbers, the result is the
-- seconds from the start of the year 0 if the date exists and the time of day is in range, and a
-- refusal otherwise.
pub parse_utc_datetime-print_utc_datetime :
    (y mo d h mi s : ℕ)
    → y < 10000
    → mo < 100
    → d < 100
    → h < 100
    → mi < 100
    → s < 100
    → parse_utc_datetime (print_utc_datetime y mo d h mi s) ≡ (
        if leb h 23 && leb mi 59 && leb s 59 && date_ok y mo d
        then some (day_number y mo d * 86400 + h * 3600 + mi * 60 + s)
        else none)
unfolding parse_utc_datetime parse_two parse_four parse_digits
parse_utc_datetime-print_utc_datetime y mo d h mi s hy hmo hd hh hmi hs =
    rw
      (
        is_digit_lem (y / 1000),
        is_digit_lem (y / 100),
        is_digit_lem (y / 10),
        is_digit_lem y,
        is_digit_lem (mo / 10),
        is_digit_lem mo,
        is_digit_lem (d / 10),
        is_digit_lem d,
        is_digit_lem (h / 10),
        is_digit_lem h,
        is_digit_lem (mi / 10),
        is_digit_lem mi,
        is_digit_lem (s / 10),
        is_digit_lem s,
        four y hy,
        two mo hmo,
        two d hd,
        two h hh,
        two mi hmi,
        two s hs,
      )
      (ranges h mi s (date_ok y mo d) _)
