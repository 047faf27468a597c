-- ===== src/Bus/Settled.antt =====
-- What the openers of a bus, in `open_or_create` of crates/shmbus/src/shm.rs, do to one another.
use dummy_benchmark.Base.{
  ℕ, ◌+◌, ◌-◌, ◌≤◌, ◌≡◌, refl, true, false, List, [], ◌∷◌, ◌==◌, if◌then◌else◌, arith, ℕ_discrete,
  ◌∙◌, ap,
}
use mathlib.Core.Logic.{if_pos, if_neg}
use dummy_benchmark.Ring.{SpscRing}
use dummy_benchmark.Bus.{bus_magic, bus_version, bus_size, BusFile, is_fresh}
use dummy_benchmark.Bus.Openers.{
  Opener, begins, looked, mapped, initialises, zeroed, ticks_made, orders_made, version_set,
  magic_set, checks, spins, attached, refused, open_step, Openers, Move, opens, uses, use_rings,
  move, run,
}

-- The opener does not initialise and will not; if it has attached, the bus is ready.
abbrev pub Calm : ℕ → Opener → Type 0
Calm ready begins = Unit
Calm ready (looked fresh) = fresh ≡ false
Calm ready (mapped fresh) = fresh ≡ false
Calm ready initialises = ⊥
Calm ready zeroed = ⊥
Calm ready ticks_made = ⊥
Calm ready orders_made = ⊥
Calm ready version_set = ⊥
Calm ready magic_set = Unit
Calm ready checks = Unit
Calm ready spins = Unit
Calm ready attached = ready ≡ 1
Calm ready (refused v) = ⊥

-- The magic and the version are in place, and nobody is on the way to initialise again.
pub record IsSettled (s : Openers) : Type 0 where
  pub long : bus_size ≤ s.file.len
  pub magic_is : s.file.layout.magic ≡ bus_magic
  pub version_is : s.file.layout.version ≡ bus_version
  pub calm : (i : ℕ) → Calm s.file.layout.ready (s.openers i)

-- What the moves of the programs, without those of the openers, leave in the rings.
pub worked : List Move → SpscRing × SpscRing → SpscRing × SpscRing
worked [] rings = rings
worked (opens i ∷ ms) rings = worked ms rings
worked (uses ticks orders ∷ ms) rings = worked ms (ticks, orders)

abbrev pub rings_of : Openers → SpscRing × SpscRing
rings_of s = (s.file.layout.ticks, s.file.layout.orders)

-- What a calm opener's step leaves.
record Stays (f : BusFile) (pc : Opener) (f' : BusFile) (pc' : Opener) : Type 0 where
  long : bus_size ≤ f'.len
  magic_is : f'.layout.magic ≡ bus_magic
  version_is : f'.layout.version ≡ bus_version
  ready_is : f.layout.ready ≡ 1 → f'.layout.ready ≡ 1
  ticks_are : f'.layout.ticks ≡ f.layout.ticks
  orders_are : f'.layout.orders ≡ f.layout.orders
  calm : Calm f'.layout.ready pc'

open_step-Stays :
    (f : BusFile) (pc : Opener)
    → bus_size ≤ f.len
    → f.layout.magic ≡ bus_magic
    → f.layout.version ≡ bus_version
    → Calm f.layout.ready pc
    → Stays f pc (open_step f pc).0 (open_step f pc).1
unfolding open_step is_fresh
open_step-Stays f begins long m v c = ground arith
open_step-Stays f (looked true) long m v c = absurd (cc)
open_step-Stays f (looked false) long m v c = ground arith
open_step-Stays f (mapped true) long m v c = absurd (cc)
open_step-Stays f (mapped false) long m v c = ground arith
open_step-Stays f initialises long m v c = absurd c
open_step-Stays f zeroed long m v c = absurd c
open_step-Stays f ticks_made long m v c = absurd c
open_step-Stays f orders_made long m v c = absurd c
open_step-Stays f version_set long m v c = absurd c
open_step-Stays f magic_set long m v c = ground arith
open_step-Stays f checks long m v c = ground arith
open_step-Stays f spins long m v c = ground arith
open_step-Stays f attached long m v c = ground arith
open_step-Stays f (refused w) long m v c = absurd c

Calm-ready : (r r' : ℕ) (pc : Opener) → (r ≡ 1 → r' ≡ 1) → Calm r pc → Calm r' pc
Calm-ready r r' attached h c = h c
Calm-ready r r' begins h c = tt
Calm-ready r r' (looked fresh) h c = c
Calm-ready r r' (mapped fresh) h c = c
Calm-ready r r' initialises h c = c
Calm-ready r r' zeroed h c = c
Calm-ready r r' ticks_made h c = c
Calm-ready r r' orders_made h c = c
Calm-ready r r' version_set h c = c
Calm-ready r r' magic_set h c = tt
Calm-ready r r' checks h c = tt
Calm-ready r r' spins h c = tt
Calm-ready r r' (refused v) h c = c

module _ {s : Openers} (v : IsSettled s) where
  stays :
      (i : ℕ)
      → Stays s.file
          (s.openers i)
          (open_step s.file (s.openers i)).0
          (open_step s.file (s.openers i)).1
  stays i = open_step-Stays s.file (s.openers i) v.long v.magic_is v.version_is (v.calm i)

  move-IsSettled : (m : Move) → IsSettled (move s m)
  unfolding move use_rings
  move-IsSettled (opens i) = record {
    long = (stays i).long;
    magic_is = (stays i).magic_is;
    version_is = (stays i).version_is;
    calm = λ j. elim (ℕ_discrete i j) [
      | yes e ↦ rw (if_pos _ e) (stays i).calm
      | no ne ↦ rw (if_neg _ ne) (Calm-ready _ _ (s.openers j) (stays i).ready_is (v.calm j))
    ];
  }
  move-IsSettled (uses ticks orders) = record {
    long = v.long;
    magic_is = v.magic_is;
    version_is = v.version_is;
    calm = v.calm;
  }

  move-ready : (m : Move) → s.file.layout.ready ≡ 1 → (move s m).file.layout.ready ≡ 1
  unfolding move use_rings
  move-ready (opens i) h = (stays i).ready_is h
  move-ready (uses ticks orders) h = h

  move-rings :
      (m : Move) (ms : List Move) → worked ms (rings_of (move s m)) ≡ worked (m ∷ ms) (rings_of s)
  unfolding move use_rings worked
  move-rings (opens i) ms = rw ((stays i).ticks_are, (stays i).orders_are) refl
  move-rings (uses ticks orders) ms = refl

-- Once the magic and the version are in place and no opener is on the way to initialise, it stays so,
-- whatever order the accesses of the openers and the work of the programs come in: no opener is refused
-- or initialises again, whoever has attached has a bus that is ready, and the rings are as the programs
-- have left them.
pub run-IsSettled :
    (s : Openers) (ms : List Move)
    → IsSettled s
    → IsSettled (run s ms) × (rings_of (run s ms) ≡ worked ms (rings_of s))
unfolding run worked
run-IsSettled s [] v = (v, refl)
run-IsSettled s (m ∷ ms) v =
    let (settled, rings) = run-IsSettled (move s m) ms (move-IsSettled v m) in
    (settled, rings ∙ move-rings v m ms)

-- The accesses of opener `i` in a schedule.
unfoldable pub own_steps : ℕ → List Move → ℕ
own_steps i [] = 0
own_steps i (opens j ∷ ms) = let rest = own_steps i ms in if j == i then rest + 1 else rest
own_steps i (uses ticks orders ∷ ms) = own_steps i ms

-- The accesses that an opener has before it on a ready bus.
abbrev pub steps_left : Opener → ℕ
steps_left begins = 5
steps_left (looked fresh) = 4
steps_left (mapped fresh) = 3
steps_left checks = 2
steps_left spins = 1
steps_left magic_set = 1
steps_left _ = 0

open_step-steps_left :
    (f : BusFile) (pc : Opener)
    → bus_size ≤ f.len
    → f.layout.magic ≡ bus_magic
    → f.layout.version ≡ bus_version
    → f.layout.ready ≡ 1
    → Calm f.layout.ready pc
    → steps_left (open_step f pc).1 ≤ steps_left pc - 1
unfolding open_step is_fresh
open_step-steps_left f begins long m v r c = ground arith
open_step-steps_left f (looked true) long m v r c = absurd (cc)
open_step-steps_left f (looked false) long m v r c = ground arith
open_step-steps_left f (mapped true) long m v r c = absurd (cc)
open_step-steps_left f (mapped false) long m v r c = ground arith
open_step-steps_left f initialises long m v r c = absurd c
open_step-steps_left f zeroed long m v r c = absurd c
open_step-steps_left f ticks_made long m v r c = absurd c
open_step-steps_left f orders_made long m v r c = absurd c
open_step-steps_left f version_set long m v r c = absurd c
open_step-steps_left f magic_set long m v r c = ground arith
open_step-steps_left f checks long m v r c = ground arith
open_step-steps_left f spins long m v r c = ground arith
open_step-steps_left f attached long m v r c = ground arith
open_step-steps_left f (refused w) long m v r c = absurd c

no_steps_left : (ready : ℕ) (pc : Opener) → Calm ready pc → steps_left pc ≤ 0 → pc ≡ attached
no_steps_left ready attached c h = refl
no_steps_left ready begins c h = absurd (omega arith)
no_steps_left ready (looked fresh) c h = absurd (omega arith)
no_steps_left ready (mapped fresh) c h = absurd (omega arith)
no_steps_left ready initialises c h = absurd c
no_steps_left ready zeroed c h = absurd c
no_steps_left ready ticks_made c h = absurd c
no_steps_left ready orders_made c h = absurd c
no_steps_left ready version_set c h = absurd c
no_steps_left ready magic_set c h = absurd (omega arith)
no_steps_left ready checks c h = absurd (omega arith)
no_steps_left ready spins c h = absurd (omega arith)
no_steps_left ready (refused v) c h = absurd c

move-steps_left :
    {s : Openers} (v : IsSettled s) (i : ℕ) (m : Move) (ms : List Move)
    → s.file.layout.ready ≡ 1
    → steps_left (s.openers i) ≤ own_steps i (m ∷ ms)
    → steps_left ((move s m).openers i) ≤ own_steps i ms
unfolding move own_steps
move-steps_left {s} v i (opens j) ms ready h = elim (ℕ_discrete j i) [
  | yes e ↦ rw (if_pos _ e) (
      let stepped =
        open_step-steps_left s.file (s.openers j) v.long v.magic_is v.version_is ready (v.calm j) in
      let counted : own_steps i (opens j ∷ ms) ≤ own_steps i ms + 1 = ground arith in
      omega (arith, stepped, counted, ap (λ k. steps_left (s.openers k)) e))
  | no ne ↦ rw (if_neg _ ne) (
      let counted : own_steps i (opens j ∷ ms) ≡ own_steps i ms = ground arith in
      omega (arith, counted))
]
move-steps_left v i (uses ticks orders) ms ready h = h

-- Nobody waits for ever: on a settled bus that is ready, an opener that has five accesses of its own in
-- the schedule has attached after it, whatever comes in between.
pub run-attached :
    (s : Openers) (i : ℕ) (ms : List Move)
    → IsSettled s
    → s.file.layout.ready ≡ 1
    → steps_left (s.openers i) ≤ own_steps i ms
    → (run s ms).openers i ≡ attached
unfolding run own_steps
run-attached s i [] v ready h = no_steps_left s.file.layout.ready (s.openers i) (v.calm i) h
run-attached s i (m ∷ ms) v ready h =
    run-attached (move s m) i ms (move-IsSettled v m) (move-ready v m ready)
      (move-steps_left v i m ms ready h)
