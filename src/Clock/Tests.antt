-- ===== src/Clock/Tests.antt =====
-- `now_ns` at two times of one second.
use dummy_benchmark.Base.{◌+◌, ◌*◌, ◌≤◌, ◌≡◌, refl, some, inr, arith}
use dummy_benchmark.Clock.{UnixTime, now_ns, now_ns-le}

abbrev early : UnixTime
early = record { secs = 1_700_000_000; subsec_nanos = 5 }

abbrev late : UnixTime
late = record { secs = 1_700_000_000; subsec_nanos = 999_999_999 }

now_ns-le_example :
    (now_ns (some early) ≡ 1_700_000_000 * 1_000_000_000 + 5)
    × (now_ns (some early) ≤ now_ns (some late))
now_ns-le_example =
    now_ns-le early late (record { below_second = omega arith; fits = omega arith })
      (record { below_second = omega arith; fits = omega arith }) (inr (refl, omega arith))
