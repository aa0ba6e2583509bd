-- ===== src/Cpp/Sources/Times.antt =====
-- The time that a wait with a duration in nanoseconds hands to `select`.
use cuddl.Base.{ℕ, ◌+◌, ◌*◌, ◌/◌, ◌^◌, ◌<◌, ◌≡◌, arith}
use cuddl.User.Eventsrc.{Timespec, timeval_of}
use cuddl.Cpp.Sources.{timespec_of_nanoseconds}

-- The two parts make up the duration, the second being less than a second; and `select` waits for the
-- whole microseconds of it.
pub record Divides (n : ℕ) (t : Timespec) : Type 0 where
  pub whole : t.tv_sec * 10 ^ 9 + t.tv_nsec ≡ n
  pub below : t.tv_nsec < 10 ^ 9
  pub microseconds : (timeval_of t).tv_sec * 10 ^ 6 + (timeval_of t).tv_usec ≡ n / 1000

pub timespec_of_nanoseconds-Divides : (n : ℕ) → Divides n (timespec_of_nanoseconds n)
unfolding timespec_of_nanoseconds
timespec_of_nanoseconds-Divides n = record {
  whole = omega arith;
  below = omega arith;
  microseconds = omega arith;
}
