-- ===== src/Clock.antt =====
-- Go's `time.Time` and `time.Duration`. A time counts nanoseconds from Go's zero time, so that
-- `IsZero` is a test for 0; earlier times, which no clock of the program shows, are left out.
-- A duration is a signed number of nanoseconds.
use agentsmith_fs_control_pl.Prelude.{
  ℕ, suc, ◌+◌, ◌-◌, ◌<◌, ◌≡◌, Bool, false, not, Option, none, some, arith, ◌==◌, ltb, ℤ, pos,
  negsuc, leb_ℤ,
}

abbrev pub Time : Type 0
Time = ℕ

abbrev pub Duration : Type 0
Duration = ℤ

-- `t.IsZero()`
abbrev pub is_zero : Time → Bool
is_zero t = t == 0

-- `t.After(u)`
abbrev pub after : Time → Time → Bool
after t u = ltb u t

-- `t.Before(u)`
abbrev pub before : Time → Time → Bool
before t u = ltb t u

-- `t.Add(d)`, stopping at the zero time
abbrev pub add : Time → Duration → Time
add t (pos n) = t + n
add t (negsuc n) = t - suc n

-- `t != nil && !t.IsZero()`
abbrev pub non_zero : Option Time → Bool
non_zero none = false
non_zero (some t) = not (is_zero t)

-- A positive duration leads to a later time.
pub lt-add : (t : Time) (d : Duration) → leb_ℤ d (pos 0) ≡ false → t < add t d
lt-add t (pos n) h = ground arith
lt-add t (negsuc n) h = ground arith
