-- ===== src/CloudConfigPlugins/Users/Expiry.antt =====
-- `_get_expire_interval` of users.py in
-- cloudbaseinit/plugins/common/userdataplugins/cloudconfigplugins
use cloudbase_init.Base.{
  ℕ, zero, suc, ◌+◌, ◌-◌, ◌*◌, ◌/◌, ◌%◌, Bool, Option, none, some, List, [], ◌∷◌, ◌==◌, nat_eq, ltb,
  leb, if◌then◌else◌, not, ◌&&◌, ◌||◌, take,
}
use cloudbase_init.Base.Int.{ℤ, pos, negsuc}
use cloudbase_init.Base.Result.{Result, ok, raise, value_error, ◌>>=◌}
use cloudbase_init.Yaml.{Value, str}
use cloudbase_init.Utils.Network.{codes, parse_int}

abbrev in_front : ℕ → List (List ℕ) → List (List ℕ)
in_front c [] = (c ∷ []) ∷ []
in_front c (s ∷ ss) = (c ∷ s) ∷ ss

-- `text.split('-')`
unfoldable pub split_dash : List ℕ → List (List ℕ)
split_dash [] = [] ∷ []
split_dash (c ∷ cs) = let rest = split_dash cs in if c == b'-' then [] ∷ rest else in_front c rest

abbrev pub is_leap : ℕ → Bool
is_leap year = year % 4 == 0 && (not (year % 100 == 0) || year % 400 == 0)

abbrev pub month_days : ℕ → List ℕ
month_days year =
    31 ∷ (if is_leap year then 29 else 28) ∷ 31 ∷ 30 ∷ 31 ∷ 30 ∷ 31 ∷ 31 ∷ 30 ∷ 31 ∷ 30 ∷ 31 ∷ []

abbrev pub sum : List ℕ → ℕ
sum [] = 0
sum (n ∷ ns) = n + sum ns

-- The days of a month, or none for a number that is no month.
abbrev pub days_of : List ℕ → ℕ → ℕ
days_of [] month = 0
days_of (n ∷ ns) zero = 0
days_of (n ∷ ns) (suc zero) = n
days_of (n ∷ ns) (suc (suc m)) = days_of ns (suc m)

-- `datetime.datetime(year=..., month=..., day=...)` accepts the date.
abbrev pub is_date : ℕ → ℕ → ℕ → Bool
is_date year month day =
    (leb 1 year && leb year 9999) && (leb 1 day && leb day (days_of (month_days year) month))

-- The number of a day, where the first one is 0001-01-01.
unfoldable pub day_number : ℕ → ℕ → ℕ → ℕ
day_number year month day =
    365 * (year - 1)
    + (year - 1) / 4
    + (year - 1) / 400
    - (year - 1) / 100
    + sum (take (month - 1) (month_days year))
    + day

-- The seconds from 1970-01-01 on.
abbrev pub seconds : ℕ → ℤ
seconds day =
    if ltb day 719163 then negsuc (86400 * (719163 - day) - 1) else pos (86400 * (day - 719163))

unfoldable pub interval : List (List ℕ) → Result ℤ
unfolding parse_int day_number
interval (y ∷ m ∷ d ∷ []) = do
  year ← parse_int y
  month ← parse_int m
  day ← parse_int d
  if is_date year month day then ok (seconds (day_number year month day)) else raise value_error
interval _ = raise value_error

-- `_get_expire_interval`: only a text has one.
unfoldable pub get_expire_interval : Value → Result (Option ℤ)
unfolding interval split_dash
get_expire_interval (str date) = do s ← interval (split_dash (codes date)); ok (some s)
get_expire_interval _ = ok none
