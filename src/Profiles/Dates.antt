-- ===== src/Profiles/Dates.antt =====
-- isLocalDate and isInstant of sdk/src/profiles/order.ts.
use direct_trade_protocol.Prelude.{
  ℕ, zero, suc, ◌-◌, ◌%◌, Bool, true, false, not, ◌&&◌, ◌||◌, Option, some, List, [], ◌∷◌, leb,
  ◌==◌, if◌then◌else◌, Text, codes, take, Result, ok, err,
}
use direct_trade_protocol.Decimal.{digits_value}
use direct_trade_protocol.Canonical.{Json, str}
use direct_trade_protocol.Inventory.{template}
use direct_trade_protocol.Profiles.Issues.{ProfileError, invalid_time}

abbrev pub drop : ℕ → Text → Text
drop zero s = s
drop (suc n) [] = []
drop (suc n) (c ∷ s) = drop n s

-- `Number(s.slice(from, from + n))` of digits
abbrev pub number_at : ℕ → ℕ → Text → ℕ
number_at from n s = digits_value 0 (take n (drop from s))

abbrev pub is_whole : Option Text → Bool
is_whole (some []) = true
is_whole _ = false

-- `/^(?!0000)[0-9]{4}-[0-9]{2}-[0-9]{2}$/`
unfoldable pub date_shape : Text → Bool
unfolding template
date_shape s = is_whole (template (codes "dddd-dd-dd") s) && not (number_at 0 4 s == 0)

abbrev pub is_leap : ℕ → Bool
is_leap y = y % 4 == 0 && (not (y % 100 == 0) || y % 400 == 0)

abbrev pub month_lengths : Bool → List ℕ
month_lengths leap =
    31 ∷ (if leap then 29 else 28) ∷ 31 ∷ 30 ∷ 31 ∷ 30 ∷ 31 ∷ 31 ∷ 30 ∷ 31 ∷ 30 ∷ 31 ∷ []

-- The number at a place; out of range no day is, as `d <= undefined` is false.
abbrev pub nth : ℕ → List ℕ → ℕ
nth i [] = 0
nth zero (n ∷ l) = n
nth (suc i) (n ∷ l) = nth i l

unfoldable pub local_date : Text → Bool
unfolding date_shape
local_date s =
    let m = number_at 5 2 s in
    let d = number_at 8 2 s in
    date_shape s
    && leb 1 m
    && leb m 12
    && leb 1 d
    && leb d (nth (m - 1) (month_lengths (is_leap (number_at 0 4 s))))

unfoldable pub is_local_date : Json → Bool
unfolding local_date
is_local_date (str s) = local_date s
is_local_date v = false

-- `/^[0-9]{4}-[0-9]{2}-[0-9]{2}T[0-9]{2}:[0-9]{2}:[0-9]{2}\.[0-9]{3}Z$/`
unfoldable pub instant_shape : Text → Bool
unfolding template
instant_shape s = is_whole (template (codes "dddd-dd-ddTdd:dd:dd.dddZ") s)

-- `new Date(s).toISOString() === s` of a text of that shape with a real date. The end of a day,
-- 24:00:00.000, is written as the start of the next one; any other time out of range is no date,
-- and `toISOString` throws.
unfoldable pub prints_back : Text → Result ProfileError Bool
prints_back s =
    let h = number_at 11 2 s in
    let m = number_at 14 2 s in
    let seconds = number_at 17 2 s in
    let ms = number_at 20 3 s in
    if leb h 23 && leb m 59 && leb seconds 59
    then ok true
    else if h == 24 && m == 0 && seconds == 0 && ms == 0
    then ok false
    else err invalid_time

unfoldable pub is_instant : Json → Result ProfileError Bool
unfolding instant_shape local_date prints_back
is_instant (str s) = if instant_shape s && local_date (take 10 s) then prints_back s else ok false
is_instant v = ok false
