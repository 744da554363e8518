-- ===== src/Policy/Time.antt =====
-- `_time`, `_dt` and `_interval` of policy.py. An instant is a number of microseconds since
-- 0001-01-01T00:00:00Z; the normalized text of `_time` is determined by it.
use agent_comm.Prelude.{
  ℕ, zero, suc, ◌+◌, ◌-◌, ◌*◌, ◌/◌, ◌%◌, String, Bool, true, ◌&&◌, ◌||◌, not, Option, none, ◌≡◌,
  refl, ◌<◌, arith, some, List, [], ◌∷◌, codes, ltb, leb, ◌==◌, if◌then◌else◌, ◌<>◌,
}
use agent_comm.Json.{Json, str}
use agent_comm.Policy.Fault.{Check, ok, fault, bad_time, invalid_datetime, empty_interval, ◌>>=◌}

infixl 6 ◌>>?◌
abbrev ◌>>?◌ : {A B : Type 0} → Option A → (A → Option B) → Option B
none >>? f = none
some a >>? f = f a

digit : ℕ → Option ℕ
digit c = if leb b'0' c && leb c b'9' then some (c - b'0') else none

-- `\d{n}`, and what follows.
digits : ℕ → ℕ → List ℕ → Option (ℕ × List ℕ)
digits zero acc cs = some (acc, cs)
digits (suc n) acc [] = none
digits (suc n) acc (c ∷ cs) = digit c >>? λ d. digits n (acc * 10 + d) cs

mark : ℕ → List ℕ → Option (List ℕ)
mark m [] = none
mark m (c ∷ cs) = if c == m then some cs else none

-- `(?:\.\d{1,6})?`, in microseconds: `k` is the weight of the next digit.
fraction_digits : ℕ → ℕ → ℕ → List ℕ → ℕ × List ℕ
fraction_digits zero k acc cs = (acc, cs)
fraction_digits (suc n) k acc [] = (acc, [])
fraction_digits (suc n) k acc (c ∷ cs) = elim (digit c) [
  | none ↦ (acc, c ∷ cs)
  | some d ↦ fraction_digits n (k / 10) (acc + d * k) cs
]

fraction : List ℕ → Option (ℕ × List ℕ)
fraction [] = some (0, [])
fraction (c ∷ cs) =
    if c == b'.'
    then (digits 1 0 cs >>? λ _. some (fraction_digits 6 100000 0 cs))
    else some (0, c ∷ cs)

-- The offset: whether it is ahead of UTC, and its minutes.
offset : List ℕ → Option (Bool × ℕ)
offset [] = none
offset (c ∷ cs) =
    if c == b'Z'
    then (elim cs [ [] ↦ some (true, 0) | _ ∷ _ ↦ none ])
    else if c == b'+' || c == b'-'
    then (digits 2 0 cs >>? λ (h, r). mark b':' r >>? λ r'.
        digits 2 0 r' >>? λ (m, r''). elim r'' [ [] ↦ some (c == b'+', h * 60 + m) | _ ∷ _ ↦ none ])
    else none

pub record Parts : Type 0 where
  pub year : ℕ
  pub month : ℕ
  pub day : ℕ
  pub hour : ℕ
  pub minute : ℕ
  pub second : ℕ
  pub micros : ℕ
  pub ahead : Bool
  pub minutes : ℕ

-- `_RFC3339.fullmatch`
rfc3339 : List ℕ → Option Parts
unfolding digits digit mark fraction fraction_digits offset
rfc3339 cs = digits 4 0 cs >>? λ (y, r1). mark b'-' r1 >>? λ r2. digits 2 0 r2 >>? λ (mo, r3).
    mark b'-' r3 >>? λ r4. digits 2 0 r4 >>? λ (d, r5). mark b'T' r5 >>? λ r6.
    digits 2 0 r6 >>? λ (h, r7). mark b':' r7 >>? λ r8. digits 2 0 r8 >>? λ (mi, r9).
    mark b':' r9 >>? λ r10. digits 2 0 r10 >>? λ (s, r11). fraction r11 >>? λ (us, r12).
    offset r12 >>? λ (ahead, off). some (record {
      year = y;
      month = mo;
      day = d;
      hour = h;
      minute = mi;
      second = s;
      micros = us;
      ahead = ahead;
      minutes = off;
    })

is_leap : ℕ → Bool
is_leap y = y % 4 == 0 && (not (y % 100 == 0) || y % 400 == 0)

days_in_month : ℕ → ℕ → ℕ
unfolding is_leap
days_in_month y m = if m == 2 then 28 + (if is_leap y then 1 else 0) else 30 + (m + m / 8) % 2

days_before_month : ℕ → ℕ → ℕ
days_before_month y zero = 0
days_before_month y (suc m) = days_before_month y m + (if m == 0 then 0 else days_in_month y m)

days_before_year : ℕ → ℕ
days_before_year y = let p = y - 1 in p * 365 + p / 4 - p / 100 + p / 400

-- Midnight after 9999-12-31.
abbrev end_of_time : ℕ
end_of_time = 3652059 * 86400000000

-- The fields that `datetime` accepts, and an offset of less than a day.
in_range : Parts → Bool
in_range p =
    leb 1 p.year
    && (leb 1 p.month && leb p.month 12)
    && (leb 1 p.day && leb p.day (days_in_month p.year p.month))
    && (leb p.hour 23 && leb p.minute 59 && leb p.second 59)
    && ltb p.minutes 1440

-- The microseconds of the written date and time, whatever the offset.
local_time : Parts → ℕ
local_time p =
    let days = days_before_year p.year + days_before_month p.year p.month + (p.day - 1) in
    (((days * 24 + p.hour) * 60 + p.minute) * 60 + p.second) * 1000000 + p.micros

shift_back : ℕ → ℕ → Option ℕ
shift_back t shift = if ltb t shift then none else some (t - shift)

shift_on : ℕ → ℕ → Option ℕ
shift_on t shift = if ltb (t + shift) end_of_time then some (t + shift) else none

-- `datetime.fromisoformat(...).astimezone(timezone.utc)`: `none` for a field out of range, an
-- offset of a day or more, or a time that is in UTC outside of the years 1 to 9999.
instant_of : Parts → Option ℕ
unfolding days_before_year days_before_month days_in_month in_range local_time shift_back shift_on
instant_of p =
    if in_range p
    then (if p.ahead
        then shift_back (local_time p) (p.minutes * 60000000)
        else shift_on (local_time p) (p.minutes * 60000000))
    else none

-- `_time(value, path)`
unfoldable pub time : Option Json → String → Check ℕ
unfolding rfc3339 instant_of
time (some (str s)) path = elim (rfc3339 (codes s)) [
  | none ↦ fault (bad_time path)
  | some p ↦ elim (instant_of p) [ none ↦ fault (invalid_datetime path) | some t ↦ ok t ]
]
time _ path = fault (bad_time path)

pub record Interval : Type 0 where
  pub start : ℕ
  pub end : ℕ

-- `_dt(a) < _dt(b)` on normalized times is `<` on instants.
unfoldable pub interval_of : Option Json → Option Json → String → Check Interval
interval_of s e path = do
  start ← time s (path <> ".start")
  end ← time e (path <> ".end")
  if leb end start then fault (empty_interval path) else ok (record { start = start; end = end })

pub interval_of-lt :
    (s e : Option Json) (path : String) (i : Interval)
    → interval_of s e path ≡ ok i
    → i.start < i.end
unfolding interval_of
interval_of-lt s e path i h = ground arith

offset_example :
    time (some (str "2026-03-01T00:30:00.5+01:00")) "t"
    ≡ time (some (str "2026-02-28T23:30:00.500000Z")) "t"
unfolding time
offset_example = refl
