-- ===== src/Feedhandler/Served.antt =====
-- The whole loop of `main` in crates/feedhandler/src/main.rs, when io_uring works.
use dummy_benchmark.Base.{
  sym, ap₂, some, none, if◌then◌else◌, ℕ, ◌+◌, ◌%◌, ◌^◌, ◌<◌, ◌≡◌, refl, ap, ◌∙◌, true, false, List,
  [], ◌∷◌, ◌++◌, length, arith, length-append, length-map,
}
use dummy_benchmark.Base.Bytes.{Bytes}
use dummy_benchmark.Message.{OrderMsg}
use dummy_benchmark.Ring.{slot_payload}
use dummy_benchmark.Ring.Holds.{Holds}
use dummy_benchmark.Feedhandler.{OrderInlet, read_orders}
use dummy_benchmark.Feedhandler.Counts.{packets_of, packet_count-le}
use dummy_benchmark.Feedhandler.Orders.{Sends, read_orders-Sends}
use dummy_benchmark.Feedhandler.Posting.{completions_of, AllSubmit, handle_done-Reposts}
use dummy_benchmark.Feedhandler.Loop.{
  submit, Cqe, done_of, Feed, goes_on, fails, hangs, broken, woken, interrupted, Turn, push_timeout,
  drain_fuel, feed_round, feed_loop,
}
use dummy_benchmark.Feedhandler.Serving.{
  receives-done_of, receives-push_timeout, depth-push_timeout, Serves, Serves-trans, Serves-none,
  timed_feed, handling, drained, drained-Serves, feed_round-woken, feed_round-interrupted,
}

-- The world over the rounds `ts`: the loop is not broken off by an error, the receives `qs` complete, and
-- the orders `os` wait in the order ring, whose messages are `sent`, from position `c` on.
pub data Rounds (sent : ℕ → Bytes) : ℕ → List Turn → List Cqe → List OrderMsg → Type 0 where
  over : {c : ℕ} → Rounds sent c [] [] []
  stopping : {c : ℕ} {t : Turn} {ts : List Turn} → t.stopped ≡ true → Rounds sent c (t ∷ ts) [] []
  skipping :
      {c : ℕ} {t : Turn} {ts : List Turn} {qs : List Cqe} {os : List OrderMsg}
      → t.stopped ≡ false
      → t.wait ≡ interrupted
      → Rounds sent c ts qs os
      → Rounds sent c (t ∷ ts) qs os
  serving :
      {c p : ℕ} {t : Turn} {ts : List Turn} {cqes qs all : List Cqe} (now : List OrderMsg)
      {os every : List OrderMsg}
      → t.stopped ≡ false
      → t.wait ≡ woken cqes
      → AllSubmit (done_of cqes)
      → Holds t.order_ring sent c p
      → c + length now ≡ p
      → Sends sent c now
      → length now < drain_fuel
      → Rounds sent p ts qs os
      → all ≡ done_of cqes ++ qs
      → every ≡ now ++ os
      → Rounds sent c (t ∷ ts) all every

-- The loop stands before position `c` of the order ring, and its counters agree.
pub record Stands (f : Feed) (c : ℕ) : Type 0 where
  pub consumer_at : f.consumer.next_seq ≡ c % 2 ^ 64
  pub buf_len : length f.order_buf ≡ slot_payload
  pub timed : f.counters.wire_lat.count ≡ f.counters.recv_count + f.counters.publish_drops
  pub deep : 0 < f.uring.depth
  pub count_fits : f.order_count < 2 ^ 64

feed_loop_nil : (f : Feed) → feed_loop f [] ≡ goes_on f
unfolding feed_loop
feed_loop_nil f = refl

deep_enough : (f : Feed) (t : Turn) → 0 < f.uring.depth → 0 < (handling f t).uring.depth
unfolding submit
deep_enough f t h = rw (depth-push_timeout f.uring) h

feed_loop-stopped :
    (f : Feed) (t : Turn) (ts : List Turn) → t.stopped ≡ true → feed_loop f (t ∷ ts) ≡ goes_on f
unfolding feed_loop
feed_loop-stopped f t ts e = ground (arith, e)

feed_loop-round :
    (f f' : Feed) (t : Turn) (ts : List Turn)
    → t.stopped ≡ false
    → feed_round f t ≡ goes_on f'
    → feed_loop f (t ∷ ts) ≡ feed_loop f' ts
unfolding feed_loop
feed_loop-round f f' t ts going e = rw (feed_loop, e, going)

-- The orders that a round reads from its ring, when its completions bring no error.
pub orders_in : Feed → Turn → List OrderMsg
orders_in f t = elim t.wait [
  | woken cqes ↦
      elim (read_orders drain_fuel
        (record { ring = t.order_ring; consumer = f.consumer; buf = f.order_buf })) [
          | none ↦ []
          | some r ↦ r.0
        ]
  | interrupted ↦ []
  | broken ↦ []
]

-- The orders that the loop reads, the oldest first.
pub orders_of : Feed → List Turn → List OrderMsg
orders_of f [] = []
orders_of f (t ∷ ts) =
    let read : List OrderMsg = elim (feed_round f t) [
      | goes_on f' ↦ orders_in f t ++ orders_of f' ts
      | fails _ ↦ []
      | hangs _ ↦ []
    ] in
    if t.stopped then [] else read

orders_of-round :
    (f f' : Feed) (t : Turn) (ts : List Turn)
    → t.stopped ≡ false
    → feed_round f t ≡ goes_on f'
    → orders_of f (t ∷ ts) ≡ orders_in f t ++ orders_of f' ts
unfolding orders_of
orders_of-round f f' t ts going e = rw (orders_of, e, going) refl

orders_of-stopped :
    (f : Feed) (t : Turn) (ts : List Turn) → t.stopped ≡ true → orders_of f (t ∷ ts) ≡ []
unfolding orders_of
orders_of-stopped f t ts e = rw (orders_of, e) refl

orders_in-interrupted : (f : Feed) (t : Turn) → t.wait ≡ interrupted → orders_in f t ≡ []
unfolding orders_in
orders_in-interrupted f t e = rw (orders_in, e) refl

orders_in-woken :
    (f : Feed) (t : Turn) (cqes : List Cqe) (now : List OrderMsg) (i : OrderInlet)
    → t.wait ≡ woken cqes
    → read_orders drain_fuel
        (record { ring = t.order_ring; consumer = f.consumer; buf = f.order_buf })
      ≡ some (now, i)
    → orders_in f t ≡ now
unfolding orders_in
orders_in-woken f t cqes now i wakes reads = rw (orders_in, wakes, reads) refl

-- The loop has read the orders `os` from position `c` on, and stands behind them.
pub record ReadAll (c : ℕ) (f : Feed) (ts : List Turn) (os : List OrderMsg) (f' : Feed)
    : Type 0 where
  pub read : orders_of f ts ≡ os
  pub behind : f'.consumer.next_seq ≡ (c + length os) % 2 ^ 64

-- The loop runs to its end, without an error and without hanging, as long as io_uring takes what is
-- submitted and the waits bring no error: it counts each packet once, posts each receive that completes
-- again, in their order, and reads exactly the orders of the order ring, in their order, and stands
-- behind the last of them. No counter runs over, the queue
-- of io_uring has room for an entry, and each round finds fewer orders than the ring and one more.
pub feed_loop-Serves :
    (sent : ℕ → Bytes) (c : ℕ) (f : Feed) (ts : List Turn) (qs : List Cqe) (os : List OrderMsg)
    → Rounds sent c ts qs os
    → Stands f c
    → packets_of f.counters + length qs < 2 ^ 64
    → (f' : Feed) × (feed_loop f ts ≡ goes_on f') × Serves f qs os f' × ReadAll c f ts os f'
unfolding orders_of
feed_loop-Serves sent c f [] qs os over s room = (
  f,
  feed_loop_nil f,
  Serves-none f f.uring s.count_fits refl,
  record { read = refl; behind = omega (arith, s.consumer_at) },
)
feed_loop-Serves sent c f (t ∷ ts) qs os (stopping e) s room = (
  f,
  feed_loop-stopped f t ts e,
  Serves-none f f.uring s.count_fits refl,
  record { read = orders_of-stopped f t ts e; behind = omega (arith, s.consumer_at) },
)
feed_loop-Serves sent c f (t ∷ ts) qs os (skipping going e rounds) s room =
    let next = timed_feed f t in
    let (f', runs, serves, reads_all) =
      feed_loop-Serves sent c next ts qs os rounds
        (record {
          consumer_at = s.consumer_at;
          buf_len = s.buf_len;
          timed = s.timed;
          deep = rw (depth-push_timeout f.uring) s.deep;
          count_fits = s.count_fits;
        })
        room in
    (
      f',
      feed_loop-round f next t ts going (feed_round-interrupted f t e) ∙ runs,
      Serves-trans
          (Serves-none f (push_timeout f.uring) s.count_fits (receives-push_timeout f.uring)) serves
          refl refl,
      record {
        read =
            orders_of-round f next t ts going (feed_round-interrupted f t e)
            ∙ ap₂ (λ x y. x ++ y) (orders_in-interrupted f t e) reads_all.read;
        behind = reads_all.behind;
      },
    )
feed_loop-Serves sent c f (t ∷ ts) all every
      (serving {p} {cqes} {qs} now {os} going wakes submits holds reach sends few rounds eq_all
        eq_every)
      s room =
    let (h, handles, r) =
      handle_done-Reposts (handling f t) (done_of cqes) (deep_enough f t s.deep) submits in
    let (i, reads, after) =
      read_orders-Sends drain_fuel
        (record { ring = t.order_ring; consumer = f.consumer; buf = f.order_buf }) sent c p now
        (record { holds = holds; consumer_at = s.consumer_at; buf_len = s.buf_len }) reach sends
        few in
    let next = drained f t h now i in
    let long = length-append (done_of cqes) qs in
    let served =
      drained-Serves f t (done_of cqes) h now i (omega (arith, ap length eq_all, long)) s.timed r
        (receives-done_of cqes) in
    let (f', runs, serves, reads_all) =
      feed_loop-Serves sent p next ts qs os rounds
        (record {
          consumer_at = after.consumer_at;
          buf_len = after.buf_len;
          timed = omega (arith, served.counted.timed, s.timed);
          deep = rw (r.depth_is) (deep_enough f t s.deep);
          count_fits = omega arith;
        })
        (omega (
          arith,
          served.counted.each_once,
          packet_count-le (completions_of (done_of cqes)),
          length-map (done_of cqes) (λ (q : Cqe). q.completion),
          ap length eq_all,
          long,
        )) in
    (
      f',
      feed_loop-round f next t ts going (feed_round-woken f t cqes h now i wakes handles reads)
          ∙ runs,
      Serves-trans served serves eq_all eq_every,
      record {
        read =
            orders_of-round f next t ts going
              (feed_round-woken f t cqes h now i wakes handles reads)
            ∙ ap₂ (λ x y. x ++ y) (orders_in-woken f t cqes now i wakes reads) reads_all.read
            ∙ sym eq_every;
        behind = omega (arith, reads_all.behind, reach, ap length eq_every, length-append now os);
      },
    )
