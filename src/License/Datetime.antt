-- ===== src/License/Datetime.antt =====
-- parse_two, parse_four and parse_utc_datetime of license/server_lease_loader.cpp (the same stand in
-- server_license_loader.cpp), with the parts of std::chrono that they use: the dates of the
-- Gregorian calendar and their day numbers. Seconds are unbounded here, as on a clock whose time_point holds them for
-- four-digit years; a system_clock that counts nanoseconds in 64 bits overflows outside the years 1678 to 2262.
pub mod Roundtrip
use server_engine_v.Common.{
  ℕ, zero, suc, ◌+◌, ◌-◌, ◌*◌, ◌/◌, ◌%◌, Bool, true, false, not, ◌&&◌, ◌||◌, Option, none, some,
  ltb, leb, ◌==◌, if◌then◌else◌, get_or, length,
}
use server_engine_v.Text.{Text}

abbrev pub is_leap : ℕ → Bool
is_leap y = y % 4 == 0 && (not (y % 100 == 0) || y % 400 == 0)

abbrev pub days_in_month : ℕ → ℕ → ℕ
days_in_month y m =
    if m == 2
    then if is_leap y then 29 else 28
    else if m == 4 || m == 6 || m == 9 || m == 11
    then 30
    else 31

-- std::chrono::year_month_day::ok, for a year in range
unfoldable pub date_ok : ℕ → ℕ → ℕ → Bool
date_ok y m d = leb 1 m && leb m 12 && leb 1 d && leb d (days_in_month y m)

-- The days of the months 1 to m.
unfoldable pub days_through_month : ℕ → ℕ → ℕ
days_through_month y zero = 0
days_through_month y (suc m) = days_through_month y m + days_in_month y (suc m)

-- The days before a year, from the start of the year 0, which is a leap year.
abbrev pub days_before_year : ℕ → ℕ
days_before_year y = 365 * y + (y + 3) / 4 + (y + 399) / 400 - (y + 99) / 100

-- std::chrono::sys_days
unfoldable pub day_number : ℕ → ℕ → ℕ → ℕ
day_number y m d = days_before_year y + days_through_month y (m - 1) + (d - 1)

abbrev pub is_digit : ℕ → Bool
is_digit c = leb 48 c && leb c 57

unfoldable pub parse_two : Text → ℕ → Option ℕ
parse_two text offset =
    if ltb (length text) (offset + 2)
    then none
    else let a = get_or text offset 0 in
      let b = get_or text (offset + 1) 0 in
      if not (is_digit a) || not (is_digit b) then none else some ((a - 48) * 10 + (b - 48))

-- The loop of parse_four from `index` on, with `left` turns to go.
unfoldable pub parse_digits : Text → ℕ → ℕ → ℕ → Option ℕ
parse_digits text position zero output = some output
parse_digits text position (suc left) output =
    let c = get_or text position 0 in
    let rest = parse_digits text (position + 1) left (output * 10 + (c - 48)) in
    if not (is_digit c) then none else rest

unfoldable pub parse_four : Text → ℕ → Option ℕ
parse_four text offset =
    if ltb (length text) (offset + 4) then none else parse_digits text offset 4 0

-- The six numbers, tested in the order of the code.
abbrev pub check_fields : Option ℕ → Option ℕ → Option ℕ → Option ℕ → Option ℕ → Option ℕ → Option ℕ
check_fields (some y) (some mo) (some d) (some h) (some mi) (some s) =
    if ltb 23 h || ltb 59 mi || ltb 59 s
    then none
    else if not (date_ok y mo d)
    then none
    else some (day_number y mo d * 86400 + h * 3600 + mi * 60 + s)
check_fields _ _ _ _ _ _ = none

-- The punctuation of YYYY-MM-DDTHH:MM:SSZ.
abbrev pub has_shape : Text → Bool
has_shape text =
    length text == 20
    && get_or text 4 0 == 45
    && get_or text 7 0 == 45
    && get_or text 10 0 == 84
    && get_or text 13 0 == 58
    && get_or text 16 0 == 58
    && get_or text 19 0 == 90

unfoldable pub parse_utc_datetime : Text → Option ℕ
parse_utc_datetime text =
    if not (has_shape text)
    then none
    else check_fields (parse_four text 0) (parse_two text 5) (parse_two text 8) (parse_two text 11)
        (parse_two text 14) (parse_two text 17)
