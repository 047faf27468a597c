-- ===== src/Engine/Rounds.antt =====
-- A round of the loop of `run_with_workers` in crates/trading-engine/src/main.rs: what it does with a
-- tick.
use dummy_benchmark.Base.{
  ℕ, ◌+◌, ◌%◌, ◌^◌, ◌<◌, ◌≡◌, refl, sym, ap, subst, none, some, arith, length, add64, if◌then◌else◌,
  Bool-cases, inl, inr,
}
use dummy_benchmark.Base.Bytes.{Bytes}
use dummy_benchmark.Message.{MarketTick, tick_bytes}
use dummy_benchmark.Message.Layout.{IsTick, read_tick-append}
use dummy_benchmark.Latency.{record_sample}
use dummy_benchmark.Ring.{ring_capacity, slot_payload}
use dummy_benchmark.Ring.Holds.{Holds, pad}
use dummy_benchmark.Ring.Calls.{consume-empty, consume-ready}
use dummy_benchmark.Engine.{route}
use dummy_benchmark.Engine.Dispatch.{
  Totals, Inlet, Outlet, see_tick, drain, take_tick, Meets, Round, count_answer, delivered, breaks,
  after_tick, on_tick, dispatch_round,
}

-- The inlet reads a tick ring that holds positions `c` up to `p`.
pub record Reads (i : Inlet) (sent : ℕ → Bytes) (c p : ℕ) : Type 0 where
  pub holds : Holds i.ring sent c p
  pub consumer_at : i.consumer.next_seq ≡ c % 2 ^ 64
  pub buf_len : length i.buf ≡ slot_payload

length-sent_buf :
    {i : Inlet} {sent : ℕ → Bytes} {c p : ℕ}
    → Reads i sent c p
    → c < p
    → length (sent c) ≡ slot_payload
length-sent_buf {i} {c} r ready =
    rw (← r.holds.stores.stored c (omega arith) ready)
      (r.holds.stores.sized (c % ring_capacity) (omega arith))

pub take_tick-empty :
    (i : Inlet) (sent : ℕ → Bytes) (c : ℕ) → Reads i sent c c → take_tick i ≡ (none, i)
unfolding take_tick
take_tick-empty i sent c r = rw (consume-empty r.holds i.consumer i.buf r.consumer_at refl)

pub take_tick-ready :
    (i : Inlet) (sent : ℕ → Bytes) (c p : ℕ) (t : MarketTick) (padding : Bytes)
    → Reads i sent c p
    → c < p
    → sent c ≡ pad (tick_bytes t padding)
    → IsTick t
    → ((take_tick i).0 ≡ some t) × Reads (take_tick i).1 sent (c + 1) p
unfolding take_tick
take_tick-ready i sent c p t padding r ready at fits =
    let (got, buf, holds, cons) =
      consume-ready r.holds i.consumer i.buf r.consumer_at ready r.buf_len in
    (
      rw (got, buf, at) (ap some (read_tick-append t padding _ fits)),
      record { holds = holds; consumer_at = cons; buf_len = rw buf (length-sent_buf r ready) },
    )

-- The counters of a run agree with the ticks: both histograms have one sample for each tick seen.
pub record IsCounted (s : Totals) : Type 0 where
  pub transit_count : s.shm_transit.count ≡ s.ticks_seen
  pub end_count : s.end_to_end.count ≡ s.ticks_seen

pub see_tick-IsCounted :
    (s : Totals) (t : MarketTick) (ts : ℕ) → IsCounted s → IsCounted (see_tick s t ts)
unfolding see_tick record_sample
see_tick-IsCounted s t ts h = record {
  transit_count = ap (λ n. add64 n 1) h.transit_count;
  end_count = ap (λ n. add64 n 1) h.end_count;
}

-- What a round does with a tick that it has read.
pub record Handles (n : ℕ) (s : Totals) (i : Inlet) (out : Outlet) (m : Meets) (t : MarketTick)
    (r : Round) : Type 0 where
  pub inlet_is : r.inlet ≡ i
  pub left_is : r.left ≡ breaks m.answer
  pub item_is :
      r.item
      ≡ delivered m.answer (route t.symbol n, record { tick = t; enqueued_ns = m.enqueued_ns })
  pub totals_are :
      let s' = count_answer (see_tick s t m.consume_ts) m.answer in
      r.totals ≡ (if breaks m.answer then s' else (drain s' out m.orders).0)

on_tick-Handles :
    (n : ℕ) (s : Totals) (i : Inlet) (out : Outlet) (idle : ℕ) (m : Meets) (t : MarketTick)
    → Handles n s i out m t (on_tick n s i out idle m t)
unfolding on_tick after_tick
on_tick-Handles n s i out idle m t = elim (Bool-cases (breaks m.answer)) [
  | inl closed ↦ record {
    inlet_is = rw closed refl;
    left_is = rw closed refl;
    item_is = rw closed refl;
    totals_are = rw closed refl;
  }
  | inr still_open ↦ record {
    inlet_is = rw still_open refl;
    left_is = rw still_open refl;
    item_is = rw still_open refl;
    totals_are = rw still_open refl;
  }
]

-- A waiting well-formed tick is taken off the ring and counted once as it was published, and goes
-- to the worker of its symbol, to the count of drops when that worker's channel is full, or ends
-- the loop when the channel is closed; unless it ends the loop, the round then drains the orders.
pub dispatch_round-ready :
    (n : ℕ) (s : Totals) (i : Inlet) (out : Outlet) (idle : ℕ) (m : Meets) (sent : ℕ → Bytes)
    (c p : ℕ) (t : MarketTick) (padding : Bytes)
    → Reads i sent c p
    → c < p
    → sent c ≡ pad (tick_bytes t padding)
    → IsTick t
    → let r = dispatch_round n s i out idle m in
      Reads r.inlet sent (c + 1) p × Handles n s (take_tick i).1 out m t r
unfolding dispatch_round
dispatch_round-ready n s i out idle m sent c p t padding r ready at fits =
    let (got, reads) = take_tick-ready i sent c p t padding r ready at fits in
    rw (dispatch_round, got)
      (let h = on_tick-Handles n s (take_tick i).1 out idle m t in
        (subst (λ i'. Reads i' sent (c + 1) p) (sym h.inlet_is) reads, h))
