-- ===== src/Ring/Refine.antt =====
-- The two ends of a ring of crates/shmbus/src/ring.rs, called in any order, against the bounded
-- queue of `Fifo`.
use mathlib.Core.Option
use dummy_benchmark.Base.{
  ℕ, suc, ◌+◌, ◌-◌, ◌%◌, ◌^◌, ◌≤◌, ◌<◌, ◌≡◌, refl, true, false, Option, none, some, List, [], ◌∷◌,
  arith, length, dec_lt,
}
use dummy_benchmark.Base.Bytes.{Bytes, update}
use dummy_benchmark.Ring.{
  SpscRing, RingProducer, RingConsumer, ring_capacity, slot_payload, publish, try_publish, consume,
  try_consume,
}
use dummy_benchmark.Ring.Holds.{Holds, pad, window, length-window, window-update}
use dummy_benchmark.Ring.Calls.{publish-full, publish-room, consume-empty, consume-ready}
use dummy_benchmark.Ring.Fifo
use dummy_benchmark.Ring.Fifo.{Op, put, get, Reply, published, consumed}

-- What the callers see of a row of calls; `none` where an `assert!` fails.
unfoldable pub run : SpscRing → RingProducer → RingConsumer → Bytes → List Op → Option (List Reply)
run ring prod cons buf [] = some []
run ring prod cons buf (put x ∷ ops) = elim (try_publish ring prod x) [
  | none ↦ none
  | some r ↦ Option.map (λ t. published r.0 ∷ t) (run r.1 r.2 cons buf ops)
]
run ring prod cons buf (get ∷ ops) = elim (try_consume ring cons buf) [
  | none ↦ none
  | some r ↦ Option.map (λ t. consumed (Option.map (λ _. r.1) r.0) ∷ t) (run r.2 prod r.3 r.1 ops)
]

abbrev pub Fits : List Op → Type 0
Fits [] = Unit
Fits (put x ∷ ops) = (length x ≤ slot_payload) × Fits ops
Fits (get ∷ ops) = Fits ops

try_publish-fits :
    (ring : SpscRing) (prod : RingProducer) (x : Bytes)
    → length x ≤ slot_payload
    → try_publish ring prod x ≡ some (publish ring prod x)
unfolding try_publish
try_publish-fits ring prod x h = ground arith

try_consume-fits :
    (ring : SpscRing) (cons : RingConsumer) (buf : Bytes)
    → length buf ≡ slot_payload
    → try_consume ring cons buf ≡ some (consume ring cons buf)
unfolding try_consume
try_consume-fits ring cons buf h = ground arith

module _ (ring : SpscRing) (prod : RingProducer) (cons : RingConsumer) (buf : Bytes)
    (ops : List Op) where
  pub run-put :
      (x : Bytes)
      → length x ≤ slot_payload
      → run ring prod cons buf (put x ∷ ops)
        ≡ Option.map
            (λ t. published (publish ring prod x).0 ∷ t)
            (run (publish ring prod x).1 (publish ring prod x).2 cons buf ops)
  unfolding run
  run-put x h = rw (try_publish-fits ring prod x h, run)

  pub run-get :
      length buf ≡ slot_payload
      → run ring prod cons buf (get ∷ ops)
        ≡ Option.map
            (λ t.
              consumed (Option.map (λ _. (consume ring cons buf).1) (consume ring cons buf).0) ∷ t)
            (run
              (consume ring cons buf).2
              prod
              (consume ring cons buf).3
              (consume ring cons buf).1
              ops)
  unfolding run
  run-get h = rw (try_consume-fits ring cons buf h, run)

-- The oldest waiting message fills its slot.
length-sent :
    {ring : SpscRing} {sent : ℕ → Bytes} {p : ℕ} (c : ℕ)
    → Holds ring sent c p
    → c < p
    → length (sent c) ≡ slot_payload
length-sent {ring} c h ready =
    rw (← h.stores.stored c (omega arith) ready) (h.stores.sized (c % ring_capacity) (omega arith))

module _ (sent : ℕ → Bytes) (c p : ℕ) where
  push-window :
      (x : Bytes)
      → c ≤ p
      → p < c + ring_capacity
      → Fifo.push (window sent c (p - c)) x ≡ (true, window (update sent p (pad x)) c (p + 1 - c))
  unfolding Fifo.push
  push-window x h room =
      rw (length-window, e, window-update sent (pad x) c (p - c) p (omega arith)) (ground arith)
    where
      e : p + 1 - c ≡ suc (p - c)
      e = omega arith

  push-window_full :
      (x : Bytes)
      → p ≡ c + ring_capacity
      → Fifo.push (window sent c (p - c)) x ≡ (false, window sent c (p - c))
  unfolding Fifo.push
  push-window_full x full = rw length-window (ground arith)

  pop-window :
      c < p → Fifo.pop (window sent c (p - c)) ≡ (some (sent c), window sent (c + 1) (p - (c + 1)))
  unfolding Fifo.pop
  pop-window h = rw e
    where
      e : p - c ≡ suc (p - (c + 1))
      e = omega arith

  pop-window_empty : p ≡ c → Fifo.pop (window sent c (p - c)) ≡ (none, window sent c (p - c))
  unfolding Fifo.pop
  pop-window_empty h = rw e
    where
      e : p - c ≡ 0
      e = omega arith

-- A ring that holds a window of messages answers every row of calls as the queue of that window.
pub run_refines :
    (ops : List Op) {ring : SpscRing} {sent : ℕ → Bytes} {c p : ℕ} (prod : RingProducer)
    (cons : RingConsumer) (buf : Bytes)
    → Holds ring sent c p
    → prod.next_seq ≡ p % 2 ^ 64
    → cons.next_seq ≡ c % 2 ^ 64
    → length buf ≡ slot_payload
    → Fits ops
    → run ring prod cons buf ops ≡ some (Fifo.run (window sent c (p - c)) ops)
unfolding run Fifo.run
run_refines [] prod cons buf h hp hc len fits = refl
run_refines (put x ∷ ops) {ring} {sent} {c} {p} prod cons buf h hp hc len fits =
    elim (dec_lt p (c + ring_capacity)) [
      | yes room ↦
          let r = publish-room h prod x hp room fits.0 in
          rw (
            run-put ring prod cons buf ops x fits.0,
            run_refines ops (publish ring prod x).2 cons buf r.1 r.2 hc len fits.1,
            r.0,
            push-window sent c p x h.stores.ordered room,
          )
      | no full ↦
          let e : p ≡ c + ring_capacity = omega arith in
          rw (
            run-put ring prod cons buf ops x fits.0,
            publish-full h prod x hp e,
            run_refines ops prod cons buf h hp hc len fits.1,
            push-window_full sent c p x e,
          )
    ]
run_refines (get ∷ ops) {ring} {sent} {c} {p} prod cons buf h hp hc len fits = elim (dec_lt c p) [
  | yes ready ↦
      let r = consume-ready h cons buf hc ready len in
      rw (
        run-get ring prod cons buf ops len,
        run_refines ops prod (consume ring cons buf).3 (consume ring cons buf).1 r.2 hp r.3
            (rw r.1 (length-sent c h ready)) fits,
        r.0,
        r.1,
        pop-window sent c p ready,
      )
  | no none_left ↦
      let e : p ≡ c = omega arith in
      rw (
        run-get ring prod cons buf ops len,
        consume-empty h cons buf hc e,
        run_refines ops prod cons buf h hp hc len fits,
        pop-window_empty sent c p e,
      )
]
