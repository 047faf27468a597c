-- ===== src/Clock.antt =====
-- `now_ns` of crates/trading-engine/src/main.rs, crates/feedhandler/src/main.rs and
-- crates/mock-exchange/src/main.rs, the same in all three.
mod Tests
use dummy_benchmark.Base.{
  ℕ, ◌+◌, ◌*◌, ◌%◌, ◌^◌, ◌≤◌, ◌<◌, ◌≡◌, ◌⊎◌, Option, none, some, add64, mul64, arith,
}

-- The time since the epoch: whole seconds, and nanoseconds below a second.
pub record UnixTime : Type 0 where
  pub secs : ℕ
  pub subsec_nanos : ℕ

-- `none` is a clock before the epoch, for which `unwrap_or_default` takes a duration of zero.
unfoldable pub now_ns : Option UnixTime → ℕ
now_ns none = 0
now_ns (some t) = add64 (mul64 t.secs 1_000_000_000) t.subsec_nanos

-- A time whose nanoseconds since the epoch fit in 64 bits.
pub record IsNear (t : UnixTime) : Type 0 where
  pub below_second : t.subsec_nanos < 1_000_000_000
  pub fits : t.secs * 1_000_000_000 + t.subsec_nanos < 2 ^ 64

-- One time is not after another.
abbrev pub IsNotAfter : UnixTime → UnixTime → Type 0
IsNotAfter a b = (a.secs < b.secs) ⊎ ((a.secs ≡ b.secs) × (a.subsec_nanos ≤ b.subsec_nanos))

-- While the nanoseconds since the epoch fit in 64 bits, `now_ns` is their number, and a clock that does
-- not step back is read in order.
pub now_ns-le :
    (a b : UnixTime)
    → IsNear a
    → IsNear b
    → IsNotAfter a b
    → (now_ns (some a) ≡ a.secs * 1_000_000_000 + a.subsec_nanos)
      × (now_ns (some a) ≤ now_ns (some b))
unfolding now_ns
now_ns-le a b near near' le = ground arith
