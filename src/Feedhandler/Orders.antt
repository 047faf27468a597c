-- ===== src/Feedhandler/Orders.antt =====
-- What crates/feedhandler/src/main.rs reads off the order ring.
use dummy_benchmark.Base.{
  ℕ, zero, suc, ◌+◌, ◌%◌, ◌^◌, ◌<◌, ◌≡◌, sym, ap, subst, ◌∙◌, none, some, List, [], ◌∷◌, arith,
  length,
}
use dummy_benchmark.Base.Bytes.{Bytes}
use dummy_benchmark.Message.{OrderMsg, order_bytes, read_order}
use dummy_benchmark.Message.Layout.{IsOrder, read_order-order_bytes}
use dummy_benchmark.Ring.{ring_capacity, slot_payload, consume}
use dummy_benchmark.Ring.Holds.{Holds, pad}
use dummy_benchmark.Ring.Calls.{consume-empty, consume-ready}
use dummy_benchmark.Feedhandler.{OrderInlet, read_orders}

-- The inlet reads an order ring that holds positions `c` up to `p`.
pub record Reads (i : OrderInlet) (sent : ℕ → Bytes) (c p : ℕ) : Type 0 where
  pub holds : Holds i.ring sent c p
  pub consumer_at : i.consumer.next_seq ≡ c % 2 ^ 64
  pub buf_len : length i.buf ≡ slot_payload

length-sent :
    {i : OrderInlet} {sent : ℕ → Bytes} {c p : ℕ}
    → Reads i sent c p
    → c < p
    → length (sent c) ≡ slot_payload
length-sent {i} {c} r ready =
    rw (← r.holds.stores.stored c (omega arith) ready)
      (r.holds.stores.sized (c % ring_capacity) (omega arith))

-- The positions from `c`, `n` of them, hold the orders `os`.
unfoldable pub Sends : (ℕ → Bytes) → ℕ → List OrderMsg → Type 0
Sends sent c [] = Unit
Sends sent c (o ∷ os) = (sent c ≡ pad (order_bytes o)) × IsOrder o × Sends sent (c + 1) os

module _ (i : OrderInlet) where
  abbrev next_inlet : OrderInlet
  next_inlet =
      let (_, buf, ring, consumer) = consume i.ring i.consumer i.buf in
      record { ring = ring; consumer = consumer; buf = buf }

  read_orders-empty :
      (fuel : ℕ)
      → (consume i.ring i.consumer i.buf).0 ≡ none
      → read_orders (suc fuel) i ≡ some ([], next_inlet)
  unfolding read_orders
  read_orders-empty fuel e = rw (read_orders, e)

  read_orders-ready :
      (fuel : ℕ) {n : ℕ} (os : List OrderMsg) (last : OrderInlet)
      → (consume i.ring i.consumer i.buf).0 ≡ some n
      → read_orders fuel next_inlet ≡ some (os, last)
      → read_orders (suc fuel) i ≡ some (read_order next_inlet.buf ∷ os, last)
  unfolding read_orders
  read_orders-ready fuel os last e rest = rw (read_orders, e, rest)

-- With more fuel than waiting messages the drain ends. When the waiting messages are the bytes of
-- well-formed orders, it reads exactly these orders, in their order, and leaves the ring empty.
pub read_orders-Sends :
    (fuel : ℕ) (i : OrderInlet) (sent : ℕ → Bytes) (c p : ℕ) (os : List OrderMsg)
    → Reads i sent c p
    → c + length os ≡ p
    → Sends sent c os
    → length os < fuel
    → (i' : OrderInlet) × (read_orders fuel i ≡ some (os, i')) × Reads i' sent p p
unfolding Sends
read_orders-Sends zero i sent c p os r all orders enough = absurd (omega arith)
read_orders-Sends (suc fuel) i sent c p [] r all orders enough =
    let here : c ≡ p = omega arith in
    let e = consume-empty r.holds i.consumer i.buf r.consumer_at (sym here) in
    let same : next_inlet i ≡ i = ap (λ t. record { ring = t.2; consumer = t.3; buf = t.1 }) e in
    (
      next_inlet i,
      read_orders-empty i fuel (ap (λ t. t.0) e),
      subst (λ j. Reads j sent p p) (sym same) (subst (λ q. Reads i sent q p) here r),
    )
read_orders-Sends (suc fuel) i sent c p (o ∷ os) r all (at, fits, orders) enough =
    let (got, buf, holds, cons) =
      consume-ready r.holds i.consumer i.buf r.consumer_at (omega arith) r.buf_len in
    let r' : Reads (next_inlet i) sent (c + 1) p = record {
      holds = holds;
      consumer_at = cons;
      buf_len = rw buf (length-sent r (omega arith));
    } in
    let (last, e, end) =
      read_orders-Sends fuel (next_inlet i) sent (c + 1) p os r' (omega arith) orders
        (omega arith) in
    let read_is : read_order (next_inlet i).buf ≡ o =
      rw (buf, at) (read_order-order_bytes o _ fits) in
    (last, read_orders-ready i fuel os last got e ∙ ap (λ x. some (x ∷ os, last)) read_is, end)
