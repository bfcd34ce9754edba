-- ===== src/Time.antt =====
-- Instants, and what the program uses of chrono and chrono_tz. A `DateTime<Utc>` is its number of
-- nanoseconds since the epoch, which is what chrono compares; a `NaiveDate` is a day number. The
-- two crates are not part of the repository, so their functions are a parameter, `Chrono`.
use galactic_trading_firm.Prelude.{
  ℕ, ◌+◌, ◌-◌, ◌*◌, ◌/◌, ◌%◌, ◌<◌, ◌≡◌, Option, none, some, if◌then◌else◌, ltb, arith,
}
use galactic_trading_firm.Prelude.Int.{ℤ, sub_ℕ}

abbrev pub DateTime : Type 0
DateTime = ℕ

abbrev pub NaiveDate : Type 0
NaiveDate = ℕ

pub record Chrono : Type 0 where
  -- `(a - b).num_milliseconds()` and `(a - b).num_minutes()`, both truncated towards zero
  pub num_milliseconds : DateTime → DateTime → ℤ
  pub num_minutes : DateTime → DateTime → ℤ
  -- `with_timezone(&US::Eastern)`, then `date_naive()`, `hour()`, `minute()`
  pub eastern_date : DateTime → NaiveDate
  pub eastern_hour : DateTime → ℕ
  pub eastern_minute : DateTime → ℕ
  -- `and_hms_opt(9, 30, 0)`, taken as US/Eastern local time by `single()`
  pub eastern_open : NaiveDate → Option DateTime
  -- the UTC clock fields
  pub minute : DateTime → ℕ
  pub with_minute : DateTime → ℕ → Option DateTime
  pub with_second : DateTime → ℕ → Option DateTime
  pub with_nanosecond : DateTime → ℕ → Option DateTime

abbrev pub nanos_per_second : ℕ
nanos_per_second = 1_000_000_000

abbrev pub nanos_per_minute : ℕ
nanos_per_minute = 60_000_000_000

abbrev pub nanos_per_hour : ℕ
nanos_per_hour = 3_600_000_000_000

-- The UTC clock as chrono documents it: `with_minute` and the like replace one field and keep the
-- others, and give `None` out of range.
pub record IsUtcClock (c : Chrono) : Type 0 where
  pub minute_lem : (t : DateTime) → c.minute t ≡ t / nanos_per_minute % 60
  pub with_minute_lem :
      (t : DateTime) (m : ℕ)
      → m < 60
      → c.with_minute t m
        ≡ some (t / nanos_per_hour * nanos_per_hour + m * nanos_per_minute + t % nanos_per_minute)
  pub with_second_lem :
      (t : DateTime) (s : ℕ)
      → s < 60
      → c.with_second t s
        ≡ some
            (t / nanos_per_minute * nanos_per_minute + s * nanos_per_second + t % nanos_per_second)
  pub with_nanosecond_lem :
      (t : DateTime) (n : ℕ)
      → n < nanos_per_second
      → c.with_nanosecond t n ≡ some (t / nanos_per_second * nanos_per_second + n)

-- Minutes since midnight in US/Eastern.
unfoldable pub eastern_minutes : ⦃c : Chrono⦄ → DateTime → ℕ
eastern_minutes ⦃c⦄ ts = c.eastern_hour ts * 60 + c.eastern_minute ts

-- A clock to run on: UTC for the fields, and a fixed offset of five hours for US/Eastern.
abbrev trunc_div : DateTime → DateTime → ℕ → ℤ
trunc_div a b unit = sub_ℕ ((a - b) / unit) ((b - a) / unit)

abbrev local : DateTime → ℕ
local t = t - 5 * nanos_per_hour

abbrev pub standard_time : Chrono
standard_time = record {
  num_milliseconds = λ a b. trunc_div a b 1_000_000;
  num_minutes = λ a b. trunc_div a b nanos_per_minute;
  eastern_date = λ t. local t / (24 * nanos_per_hour);
  eastern_hour = λ t. local t / nanos_per_hour % 24;
  eastern_minute = λ t. local t / nanos_per_minute % 60;
  eastern_open = λ d. some (d * 24 * nanos_per_hour + 570 * nanos_per_minute + 5 * nanos_per_hour);
  minute = λ t. t / nanos_per_minute % 60;
  with_minute = λ t m.
      if ltb m 60
      then some (t / nanos_per_hour * nanos_per_hour + m * nanos_per_minute + t % nanos_per_minute)
      else none;
  with_second = λ t s.
      if ltb s 60
      then some
          (t / nanos_per_minute * nanos_per_minute + s * nanos_per_second + t % nanos_per_second)
      else none;
  with_nanosecond = λ t n.
      if ltb n nanos_per_second then some (t / nanos_per_second * nanos_per_second + n) else none;
}

pub standard_time-IsUtcClock : IsUtcClock standard_time
standard_time-IsUtcClock = ground arith
