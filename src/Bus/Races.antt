-- ===== src/Bus/Races.antt =====
-- Openers of crates/shmbus/src/shm.rs alone with the file, and two that create it at once.
use dummy_benchmark.Base.{
  ℕ, zero, suc, ◌<◌, ◌≡◌, refl, Bool, true, List, [], ◌∷◌, ◌++◌, arith, sym, subst, ℕ_discrete,
}
use dummy_benchmark.Base.Bytes.{update}
use dummy_benchmark.Ring.{SpscRing}
use dummy_benchmark.Bus.{bus_size, BusFile, is_fresh, cold_init}
use dummy_benchmark.Bus.Open.{IsEmptyBus, cold_init-IsEmptyBus}
use dummy_benchmark.Bus.Openers.{
  begins, looked, attached, store_zeros, open_step, Openers, Move, opens, uses, use_rings, move,
  run,
}

-- `k` accesses of opener `i`, one after the other.
abbrev pub turns_of : ℕ → ℕ → List Move
turns_of zero i = []
turns_of (suc k) i = opens i ∷ turns_of k i

-- Both openers look at the length; the first then opens the bus, and the programs use it.
abbrev pub first_opens : SpscRing → SpscRing → List Move
first_opens ticks orders = opens 1 ∷ opens 0 ∷ turns_of 8 0 ++ uses ticks orders ∷ []

abbrev pub both_begin : BusFile → Openers
both_begin f = record { file = f; openers = λ i. begins }

-- What the first opener and the programs have left, and what the second opener then makes of it.
abbrev pub IsLost : SpscRing → SpscRing → Openers → Openers → Type 0
IsLost ticks orders s t =
    (s.openers 0 ≡ attached)
    × (s.file.layout.ticks ≡ ticks)
    × (s.file.layout.orders ≡ orders)
    × (t.openers 0 ≡ attached)
    × (t.openers 1 ≡ attached)
    × IsEmptyBus t.file

abbrev both_looked : BusFile → Bool → Openers
both_looked f fresh = record {
  file = f;
  openers = update (update (λ i. begins) 1 (looked fresh)) 0 (looked fresh);
}

both_fresh-IsLost :
    (f : BusFile) (ticks orders : SpscRing)
    → let s = run (both_looked f true) (turns_of 8 0 ++ uses ticks orders ∷ []) in
      IsLost ticks orders s (run s (turns_of 8 1))
unfolding run move open_step use_rings store_zeros cold_init ℕ_discrete
both_fresh-IsLost f ticks orders =
    let used : BusFile = record {
      len = bus_size;
      layout = record f.layout { ticks = ticks; orders = orders };
    } in
    let rebuilt = cold_init-IsEmptyBus used (omega arith) in (refl, refl, refl, refl, refl, rebuilt)

-- Two processes that open a new file at once can both initialise it: whatever the programs have put in
-- the rings after the first has returned, the second, which has looked at the length before, returns a
-- bus with empty rings.
pub first_opens-IsLost :
    (f : BusFile) (ticks orders : SpscRing)
    → f.len < bus_size
    → let s = run (both_begin f) (first_opens ticks orders) in
      IsLost ticks orders s (run s (turns_of 8 1))
unfolding run move open_step is_fresh ℕ_discrete
first_opens-IsLost f ticks orders short =
    let fresh : is_fresh f ≡ true = ground arith in
    subst
      (λ b.
        let s = run (both_looked f b) (turns_of 8 0 ++ uses ticks orders ∷ []) in
        IsLost ticks orders s (run s (turns_of 8 1)))
      (sym fresh) (both_fresh-IsLost f ticks orders)
