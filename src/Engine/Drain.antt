-- ===== src/Engine/Drain.antt =====
-- What the publication of orders in crates/trading-engine/src/main.rs does to the order ring and to
-- the counters.
use dummy_benchmark.Base.{
  ℕ, suc, ◌+◌, ◌-◌, ◌%◌, ◌^◌, ◌<◌, ◌≡◌, refl, ◌∙◌, ap, subst, List, [], ◌∷◌, arith, length, take,
  All, min, dec_lt, add64,
}
use dummy_benchmark.Base.Bytes.{Bytes, update}
use dummy_benchmark.Message.{OrderMsg, order_bytes}
use dummy_benchmark.Message.Layout.{IsOrder, length-order_bytes}
use dummy_benchmark.Ring.{ring_capacity}
use dummy_benchmark.Ring.Holds.{Holds, pad}
use dummy_benchmark.Ring.Calls.{publish-full, publish-room}
use dummy_benchmark.Engine.{try_publish_order}
use dummy_benchmark.Engine.Dispatch.{Totals, Outlet, offer_order, drain}

-- The payloads after a row of orders that starts at position `p`.
unfoldable pub with_orders : (ℕ → Bytes) → ℕ → List OrderMsg → ℕ → Bytes
with_orders sent p [] = sent
with_orders sent p (o ∷ os) = with_orders (update sent p (pad (order_bytes o))) (p + 1) os

-- How many of the orders the ring has room for.
abbrev pub fitting : ℕ → ℕ → List OrderMsg → ℕ
fitting c p os = min (length os) (c + ring_capacity - p)

-- The ring took the first `k` orders, the others were dropped, and the counters say so.
pub record Drained (k : ℕ) (s : Totals) (os : List OrderMsg) (sent : ℕ → Bytes) (c p : ℕ)
    (s' : Totals) (out' : Outlet) : Type 0 where
  pub holds : Holds out'.ring (with_orders sent p (take k os)) c (p + k)
  pub producer_at : out'.producer.next_seq ≡ (p + k) % 2 ^ 64
  pub sent_count : s'.orders_sent ≡ s.orders_sent + k
  pub dropped_count : s'.orders_dropped + k ≡ s.orders_dropped + length os
  pub seen_kept : s'.ticks_seen ≡ s.ticks_seen

add64_small : (n : ℕ) → n + 1 < 2 ^ 64 → add64 n 1 ≡ n + 1
add64_small n h = omega arith

module _ (c : ℕ) where
  offer_order-room :
      (s : Totals) (out : Outlet) (o : OrderMsg) {sent : ℕ → Bytes} {p : ℕ}
      → Holds out.ring sent c p
      → out.producer.next_seq ≡ p % 2 ^ 64
      → IsOrder o
      → s.orders_sent + 1 < 2 ^ 64
      → p < c + ring_capacity
      → let (s', out') = offer_order s out o in
        (s' ≡ record s { orders_sent = s.orders_sent + 1 })
        × Holds out'.ring (update sent p (pad (order_bytes o))) c (p + 1)
        × (out'.producer.next_seq ≡ (p + 1) % 2 ^ 64)
  unfolding offer_order try_publish_order
  offer_order-room s out o h at ok few room =
      let r =
        publish-room h out.producer (order_bytes o) at room
          (omega (arith, length-order_bytes o ok)) in
      (rw r.0 (ap (λ n. record s { orders_sent = n }) (add64_small s.orders_sent few)), r.1, r.2)

  offer_order-full :
      (s : Totals) (out : Outlet) (o : OrderMsg) {sent : ℕ → Bytes} {p : ℕ}
      → Holds out.ring sent c p
      → out.producer.next_seq ≡ p % 2 ^ 64
      → s.orders_dropped + 1 < 2 ^ 64
      → p ≡ c + ring_capacity
      → offer_order s out o ≡ (record s { orders_dropped = s.orders_dropped + 1 }, out)
  unfolding offer_order try_publish_order
  offer_order-full s out o h at few full =
      rw (publish-full h out.producer (order_bytes o) at full)
        (ap (λ n. (record s { orders_dropped = n }, out)) (add64_small s.orders_dropped few))

  Drained-none :
      {s : Totals} {out : Outlet} {sent : ℕ → Bytes} {p : ℕ}
      → Holds out.ring sent c p
      → out.producer.next_seq ≡ p % 2 ^ 64
      → Drained 0 s [] sent c p s out
  unfolding with_orders
  Drained-none {out} {sent} {p} h at = record {
    holds = subst (Holds out.ring sent c) (omega arith) h;
    producer_at = omega (arith, at);
    sent_count = omega arith;
    dropped_count = refl;
    seen_kept = refl;
  }

  Drained-dropped :
      {s s' : Totals} {out' : Outlet} {sent : ℕ → Bytes} {p k k' : ℕ} {o : OrderMsg}
      {os : List OrderMsg}
      → k ≡ 0
      → k' ≡ 0
      → Drained k (record s { orders_dropped = s.orders_dropped + 1 }) os sent c p s' out'
      → Drained k' s (o ∷ os) sent c p s' out'
  unfolding with_orders
  Drained-dropped {out'} {sent} {p} {k} {k'} {o} {os} none none' d = record {
    holds =
        rw none'
          (subst (λ n. Holds out'.ring (with_orders sent p (take n os)) c (p + n)) none d.holds);
    producer_at = omega (arith, d.producer_at);
    sent_count = omega (arith, d.sent_count);
    dropped_count = omega (arith, d.dropped_count);
    seen_kept = d.seen_kept;
  }

  Drained-sent :
      {s s₁ s' : Totals} {out' : Outlet} {sent : ℕ → Bytes} {p k k' : ℕ} {o : OrderMsg}
      {os : List OrderMsg}
      → s₁ ≡ record s { orders_sent = s.orders_sent + 1 }
      → k' ≡ suc k
      → Drained k s₁ os (update sent p (pad (order_bytes o))) c (p + 1) s' out'
      → Drained k' s (o ∷ os) sent c p s' out'
  unfolding with_orders
  Drained-sent {out'} {sent} {p} {k} {k'} {o} {os} e more d = record {
    holds =
        rw more
          (subst (Holds out'.ring (with_orders sent p (o ∷ take k os)) c) (omega arith) d.holds);
    producer_at = omega (arith, d.producer_at);
    sent_count = omega (arith, d.sent_count, ap (λ t. t.orders_sent) e);
    dropped_count = omega (arith, d.dropped_count, ap (λ t. t.orders_dropped) e);
    seen_kept = d.seen_kept ∙ ap (λ t. t.ticks_seen) e;
  }

  -- Draining a row of well-formed orders into the order ring sends the first ones, as many as there
  -- is room for, padded and in their order, drops the others, and counts each order once, when the
  -- counters do not run over.
  pub drain-Drained :
      (s : Totals) (out : Outlet) (os : List OrderMsg) (sent : ℕ → Bytes) (p : ℕ)
      → Holds out.ring sent c p
      → out.producer.next_seq ≡ p % 2 ^ 64
      → All IsOrder os
      → s.orders_sent + length os < 2 ^ 64
      → s.orders_dropped + length os < 2 ^ 64
      → let (s', out') = drain s out os in Drained (fitting c p os) s os sent c p s' out'
  unfolding drain
  drain-Drained s out [] sent p h at ok few few' =
      let zero_fit : 0 ≡ fitting c p [] = omega arith in
      subst (λ k. Drained k s [] sent c p s out) zero_fit (Drained-none h at)
  drain-Drained s out (o ∷ os) sent p h at ok few few' = elim (dec_lt p (c + ring_capacity)) [
    | yes room ↦
        let (e, h', at') = offer_order-room s out o h at ok.0 (omega arith) room in
        let out' = (offer_order s out o).1 in
        let s' = (offer_order s out o).0 in
        let d =
          drain-Drained s' out' os (update sent p (pad (order_bytes o))) (p + 1) h' at' ok.1
            (omega (arith, ap (λ t. t.orders_sent) e))
            (omega (arith, ap (λ t. t.orders_dropped) e)) in
        Drained-sent e (omega arith) d
    | no full ↦
        let at_end : p ≡ c + ring_capacity = omega (arith, h.stores.bounded) in
        let e = offer_order-full s out o h at (omega arith) at_end in
        let s' = record s { orders_dropped = s.orders_dropped + 1 } in
        let d = drain-Drained s' out os sent p h at ok.1 (omega arith) (omega arith) in
        rw (drain, e) (Drained-dropped (omega arith) (omega arith) d)
  ]
