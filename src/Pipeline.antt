-- ===== src/Pipeline.antt =====
-- The two programs joined by the two rings: crates/feedhandler/src/main.rs and
-- crates/trading-engine/src/main.rs.
pub mod Market
mod Tests
use dummy_benchmark.Base.{
  ℕ, zero, suc, ◌+◌, ◌-◌, ◌%◌, ◌^◌, ◌≤◌, ◌<◌, ◌≡◌, ◌≢◌, refl, sym, ap, subst, ◌∙◌, Option, none,
  some, List, [], ◌∷◌, ◌++◌, arith, length, length-take, take, All, min,
}
use dummy_benchmark.Base.Bytes.{Bytes, update}
use dummy_benchmark.Base.Int.{ℤ, pos, negsuc}
use dummy_benchmark.Message.{MarketTick, OrderMsg, tick_size, tick_bytes, read_tick, order_bytes}
use dummy_benchmark.Message.Layout.{IsTick, IsOrder}
use dummy_benchmark.Ring.{ring_capacity, slot_payload}
use dummy_benchmark.Ring.Holds.{Holds, pad}
use dummy_benchmark.Engine.Dispatch.{Totals, Inlet, Outlet, take_tick, drain}
use dummy_benchmark.Engine.Rounds
use dummy_benchmark.Engine.Rounds.{take_tick-ready}
use dummy_benchmark.Engine.Drain.{with_orders, fitting, drain-Drained}
use dummy_benchmark.Feedhandler.{
  Counters, TickOutlet, Completion, on_result, OrderInlet, read_orders,
}
use dummy_benchmark.Feedhandler.Forward.{AreBytes, on_result-packet, stamped-IsTick}
use dummy_benchmark.Feedhandler.Orders
use dummy_benchmark.Feedhandler.Orders.{Sends, read_orders-Sends}

update_self : (f : ℕ → Bytes) (i : ℕ) (a : Bytes) → update f i a i ≡ a
update_self f i a = ground arith

-- A packet of at least 64 bytes in the buffer, received while the tick ring is empty and both
-- handles stand at its position, is what the engine reads next: every field as it came, but for
-- the time of reception, which is the feed handler's clock.
pub packet_reaches_engine :
    (s : Counters) (out : TickOutlet) (d : Completion) (n : ℕ) (i : Inlet) (sent : ℕ → Bytes)
    (c : ℕ)
    → Holds out.ring sent c c
    → out.producer.next_seq ≡ c % 2 ^ 64
    → i.consumer.next_seq ≡ c % 2 ^ 64
    → length i.buf ≡ slot_payload
    → tick_size ≤ n
    → n ≤ length d.buffer
    → AreBytes d.buffer
    → length d.padding ≡ 4
    → d.now < 2 ^ 64
    → let ring = (on_result s out d (pos n)).1.ring in
      (take_tick (record i { ring = ring })).0
      ≡ some (record (read_tick (take tick_size (take n d.buffer))) { recv_ts_ns = d.now })
packet_reaches_engine s out d n i sent c h at at' len enough fits are_bytes four clock =
    let (is_tick, _, holds, _) =
      on_result-packet s out d n sent c c h at (omega arith) enough fits are_bytes four clock in
    let ring = (on_result s out d (pos n)).1.ring in
    let t = read_tick (take tick_size (take n d.buffer)) in
    (take_tick-ready (record i { ring = ring }) _ c (c + 1) (record t { recv_ts_ns = d.now })
      d.padding (record { holds = holds; consumer_at = at'; buf_len = len }) (omega arith)
      (update_self sent c _) (stamped-IsTick t d.now is_tick clock)).0

with_orders-before :
    (sent : ℕ → Bytes) (p k : ℕ) (os : List OrderMsg) → k < p → with_orders sent p os k ≡ sent k
unfolding with_orders
with_orders-before sent p k [] h = refl
with_orders-before sent p k (o ∷ os) h =
    ground (arith, with_orders-before (update sent p (pad (order_bytes o))) (p + 1) k os)

with_orders-Sends :
    (sent : ℕ → Bytes) (p : ℕ) (os : List OrderMsg)
    → All IsOrder os
    → Sends (with_orders sent p os) p os
unfolding with_orders Sends
with_orders-Sends sent p [] fits = tt
with_orders-Sends sent p (o ∷ os) fits =
    let sent' = update sent p (pad (order_bytes o)) in
    (
      with_orders-before sent' (p + 1) p os (omega arith) ∙ update_self sent p _,
      fits.0,
      with_orders-Sends sent' (p + 1) os fits.1,
    )

IsOrder-take : (n : ℕ) (os : List OrderMsg) → All IsOrder os → All IsOrder (take n os)
IsOrder-take zero os h = tt
IsOrder-take (suc n) [] h = tt
IsOrder-take (suc n) (o ∷ os) h = (h.0, IsOrder-take n os h.1)

take_nothing : (n : ℕ) → take {A = OrderMsg} n [] ≡ []
take_nothing zero = refl
take_nothing (suc n) = refl

take-min : (n : ℕ) (os : List OrderMsg) → take (min (length os) n) os ≡ take n os
take-min n [] = ap (λ m. take m []) least ∙ sym (take_nothing n)
  where
    least : min 0 n ≡ 0
    least = omega arith
take-min zero (o ∷ os) = ap (λ m. take m (o ∷ os)) least
  where
    least : min (suc (length os)) 0 ≡ 0
    least = omega arith
take-min (suc n) (o ∷ os) = ap (λ m. take m (o ∷ os)) least ∙ ap (λ t. o ∷ t) (take-min n os)
  where
    least : min (suc (length os)) (suc n) ≡ suc (min (length os) n)
    least = omega arith

-- Well-formed orders that the engine publishes into an empty order ring are what the feed handler
-- then reads, with more fuel than the ring has slots: the first ones, in their order, as many as
-- the ring has slots. The engine's counters must not run over.
pub orders_reach_feedhandler :
    (s : Totals) (out : Outlet) (i : OrderInlet) (os : List OrderMsg) (sent : ℕ → Bytes)
    (c fuel : ℕ)
    → Holds out.ring sent c c
    → out.producer.next_seq ≡ c % 2 ^ 64
    → i.consumer.next_seq ≡ c % 2 ^ 64
    → length i.buf ≡ slot_payload
    → All IsOrder os
    → s.orders_sent + length os < 2 ^ 64
    → s.orders_dropped + length os < 2 ^ 64
    → ring_capacity < fuel
    → let ring = (drain s out os).1.ring in
      (i' : OrderInlet) × (read_orders fuel (record i { ring = ring })
        ≡ some (take ring_capacity os, i'))
orders_reach_feedhandler s out i os sent c fuel h at at' len fits few few' enough =
    let d = drain-Drained c s out os sent c h at fits few few' in
    let k = fitting c c os in
    let sends = with_orders-Sends sent c (take k os) (IsOrder-take k os fits) in
    let reads : Orders.Reads (record i { ring = (drain s out os).1.ring })
        (with_orders sent c (take k os)) c (c + k) =
      record { holds = d.holds; consumer_at = at'; buf_len = len } in
    let (i', read, _) =
      read_orders-Sends fuel _ _ c (c + k) (take k os) reads (omega (arith, length-take k os)) sends
        (omega (arith, length-take k os)) in
    let room : c + ring_capacity - c ≡ ring_capacity = omega arith in
    let kept : take k os ≡ take ring_capacity os =
      ap (λ n. take (min (length os) n) os) room ∙ take-min ring_capacity os in
    (i', read ∙ ap (λ t. some (t, i')) kept)
