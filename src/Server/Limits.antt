-- ===== src/Server/Limits.antt =====
-- The limit of three hours that `create` means to set on a mapping's time.
use pod_proxier.Base.{ℕ, ◌*◌, ◌-◌, ◌^◌, ◌≤◌, ◌<◌, ◌≡◌, arith}
use pod_proxier.Base.Int.{pos, negsuc, wrap64, wrap64-pos, ◌*ℤ◌}
use pod_proxier.Pod.Mapping.{seconds}
use pod_proxier.Server.V1.{limit_time}

limit_time_short : (t : ℕ) → t ≤ 10800000000000 → limit_time (pos t) ≡ pos t
unfolding limit_time
limit_time_short t h = ground arith

*ℤ-pos : (a b : ℕ) → pos a *ℤ pos b ≡ pos (a * b)
unfolding ◌*ℤ◌
*ℤ-pos a b = ground arith

wrap64-high : (n : ℕ) → 2 ^ 63 ≤ n → n < 2 ^ 64 → wrap64 (pos n) ≡ negsuc (2 ^ 64 - n - 1)
unfolding wrap64
wrap64-high n low high = ground arith

-- Up to 9223372036 seconds, some 292 years, the time asked for is the time scheduled: the test
-- compares seconds with a number of nanoseconds.
pub seconds-limit_time :
    (t : ℕ) → t ≤ 9223372036 → seconds (limit_time (pos t)) ≡ pos (t * 1000000000)
unfolding seconds
seconds-limit_time t h =
    rw (limit_time_short t (omega arith), *ℤ-pos) (wrap64-pos (t * 1000000000) (omega arith))

-- A longer time, up to 18446744073 seconds, passes the limit too and wraps to a negative delay.
pub seconds-limit_time_wraps :
    (t : ℕ)
    → 9223372037 ≤ t
    → t ≤ 18446744073
    → seconds (limit_time (pos t)) ≡ negsuc (2 ^ 64 - t * 1000000000 - 1)
unfolding seconds
seconds-limit_time_wraps t low high =
    rw (limit_time_short t (omega arith), *ℤ-pos)
      (wrap64-high (t * 1000000000) (omega arith) (omega arith))
