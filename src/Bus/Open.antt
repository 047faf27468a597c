-- ===== src/Bus/Open.antt =====
-- What an opener of the bus of crates/shmbus/src/shm.rs finds, keeps and destroys.
use dummy_benchmark.Base.{
  ℕ, ◌≤◌, ◌<◌, ◌≡◌, ◌≢◌, refl, ◌⊎◌, true, List, [], ◌∷◌, ◌++◌, arith, length-replicate,
}
use dummy_benchmark.Base.Bytes.{Bytes}
use dummy_benchmark.Ring.{SpscRing, slot_payload}
use dummy_benchmark.Ring.Holds.{Holds, IsSized, init-Holds}
use dummy_benchmark.Bus.{
  bus_magic, bus_version, bus_size, BusFile, opened, version_mismatch, waiting, is_fresh, extend,
  zero_ring, cold_init, spin, finish_open, open_or_create,
}

-- A bus that is ready for use.
pub record IsLive (f : BusFile) : Type 0 where
  pub long : bus_size ≤ f.len
  pub magic_is : f.layout.magic ≡ bus_magic
  pub version_is : f.layout.version ≡ bus_version
  pub ready_is : f.layout.ready ≡ 1

-- A live bus whose rings hold no message.
pub record IsEmptyBus (f : BusFile) : Type 0 where
  pub live : IsLive f
  pub ticks_empty : (sent : ℕ → Bytes) → Holds f.layout.ticks sent 0 0
  pub orders_empty : (sent : ℕ → Bytes) → Holds f.layout.orders sent 0 0

zero_ring-IsSized : (ring : SpscRing) → IsSized (zero_ring ring).slots
unfolding zero_ring
zero_ring-IsSized ring i h = length-replicate {A = ℕ} slot_payload 0

pub cold_init-IsEmptyBus :
    (f : BusFile) → bus_size ≤ f.len → IsEmptyBus (record f { layout = cold_init f.layout })
unfolding cold_init
cold_init-IsEmptyBus f long = record {
  live = record { long = long; magic_is = refl; version_is = refl; ready_is = refl };
  ticks_empty =
      λ sent. init-Holds (zero_ring f.layout.ticks) sent (zero_ring-IsSized f.layout.ticks);
  orders_empty =
      λ sent. init-Holds (zero_ring f.layout.orders) sent (zero_ring-IsSized f.layout.orders);
}

extend-long : (f : BusFile) → bus_size ≤ (extend f).len
unfolding extend is_fresh
extend-long f = ground arith

-- Opening a file that is too short, or that has another magic, leaves a live bus with empty rings.
pub open_or_create-cold :
    (f : BusFile) (reads : List ℕ)
    → (f.len < bus_size) ⊎ (f.layout.magic ≢ bus_magic)
    → (f' : BusFile) × (open_or_create f reads ≡ opened f') × IsEmptyBus f'
unfolding open_or_create finish_open extend is_fresh
open_or_create-cold f reads cold = (
  record (extend f) { layout = cold_init (extend f).layout },
  ground arith,
  cold_init-IsEmptyBus (extend f) (extend-long f),
)

-- Opening a live bus attaches to it as it is, at the first look at the ready bit.
pub open_or_create-live :
    (f : BusFile) (reads : List ℕ) → IsLive f → open_or_create f (f.layout.ready ∷ reads) ≡ opened f
unfolding open_or_create finish_open extend is_fresh spin
open_or_create-live f reads live = ground arith

-- A bus of another version is refused with its version, whatever its ready bit.
pub open_or_create-version :
    (f : BusFile) (reads : List ℕ)
    → bus_size ≤ f.len
    → f.layout.magic ≡ bus_magic
    → f.layout.version ≢ bus_version
    → open_or_create f reads ≡ version_mismatch f.layout.version
unfolding open_or_create finish_open extend is_fresh
open_or_create-version f reads long magic version = ground arith

-- Loads that do not yet see the ready bit.
unfoldable pub AreNotReady : List ℕ → Type 0
AreNotReady [] = Unit
AreNotReady (r ∷ reads) = (r ≢ 1) × AreNotReady reads

spin-waits : (f : BusFile) (waits : List ℕ) → AreNotReady waits → spin f waits ≡ waiting
unfolding spin AreNotReady
spin-waits f [] h = refl
spin-waits f (r ∷ waits) h = ground (arith, spin-waits f waits h.1)

spin-ready :
    (f : BusFile) (waits reads : List ℕ)
    → AreNotReady waits
    → spin f (waits ++ 1 ∷ reads) ≡ opened f
unfolding spin AreNotReady
spin-ready f [] reads h = refl
spin-ready f (r ∷ waits) reads h = ground (arith, spin-ready f waits reads h.1)

-- With the magic and the version in place an opener waits while it reads no 1 from the ready word, and
-- attaches at the first 1 that it reads.
pub open_or_create-spin :
    (f : BusFile) (waits reads : List ℕ)
    → bus_size ≤ f.len
    → f.layout.magic ≡ bus_magic
    → f.layout.version ≡ bus_version
    → AreNotReady waits
    → (open_or_create f waits ≡ waiting) × (open_or_create f (waits ++ 1 ∷ reads) ≡ opened f)
unfolding open_or_create finish_open extend is_fresh
open_or_create-spin f waits reads long magic version h =
    (ground (arith, spin-waits f waits h), ground (arith, spin-ready f waits reads h))

-- An opener that found the file too short initialises the bus when it goes on, even if the bus has
-- become live since: it leaves empty rings, whatever was published.
pub finish_open-late :
    (f : BusFile) (reads : List ℕ)
    → IsLive f
    → (f' : BusFile) × (finish_open true f reads ≡ opened f') × IsEmptyBus f'
unfolding finish_open
finish_open-late f reads live =
    (record f { layout = cold_init f.layout }, refl, cold_init-IsEmptyBus f live.long)
