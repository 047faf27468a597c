-- ===== src/Feedhandler/Loop.antt =====
-- crates/feedhandler/src/main.rs: `submit_recv`, and the loop of `main`.
use dummy_benchmark.Base.{
  ℕ, ◌+◌, ◌-◌, ◌%◌, ◌^◌, Bool, none, some, List, [], ◌∷◌, ◌++◌, length, leb, ◌==◌, if◌then◌else◌,
}
use dummy_benchmark.Base.Bytes.{Bytes}
use dummy_benchmark.Ring.{SpscRing, RingProducer, RingConsumer, ring_capacity}
use dummy_benchmark.Feedhandler.{Counters, TickOutlet, Completion, on_completion, read_orders}

-- `TIMEOUT_UD`
abbrev pub timeout_ud : ℕ
timeout_ud = 2 ^ 64 - 1

-- io_uring by the user data of its entries: those that wait in the submission queue of `depth`
-- entries, and those that the kernel has got, the oldest first.
pub record Uring : Type 0 where
  pub depth : ℕ
  pub queue : List ℕ
  pub submitted : List ℕ

-- `push` is refused by a full queue.
unfoldable pub queue_full : Uring → Bool
queue_full u = leb u.depth (length u.queue)

unfoldable pub push : Uring → ℕ → Uring
push u ud = record u { queue = u.queue ++ ud ∷ [] }

-- `submit`, when it succeeds, hands the whole queue to the kernel.
unfoldable pub submit : Uring → Uring
submit u = record u { queue = []; submitted = u.submitted ++ u.queue }

-- What `submit_recv` comes to on a row of answers of `submit`: `posting` when the answers end before it
-- returns.
pub data Posted : Type 0 where
  posted : Uring → Posted
  refused : Uring → Posted
  posting : Uring → Posted

unfoldable pub submit_recv : Uring → ℕ → List Bool → Posted
unfolding queue_full push submit
submit_recv u ud [] = posting u
submit_recv u ud (succeeds ∷ answers) =
    let again = submit_recv (submit u) ud answers in
    if queue_full u
    then if succeeds then again else refused u
    else if succeeds
    then posted (submit (push u ud))
    else refused (push u ud)

-- A completion queue entry, with the answers that the submits behind it get.
pub record Cqe : Type 0 where
  pub user_data : ℕ
  pub completion : Completion
  pub submits : List Bool

-- `done`: the entries that are not of the timeout.
unfoldable pub done_of : List Cqe → List Cqe
done_of [] = []
done_of (q ∷ qs) = let rest = done_of qs in if q.user_data == timeout_ud then rest else q ∷ rest

-- The local variables of the loop.
pub record Feed : Type 0 where
  pub counters : Counters
  pub order_count : ℕ
  pub producer : RingProducer
  pub consumer : RingConsumer
  pub order_buf : Bytes
  pub uring : Uring

-- `main` goes on with the next statement, returns an error, or waits in a loop that has not ended.
pub data Flow {ℓ} (A : Type ℓ) : Type ℓ where
  goes_on : A → Flow A
  fails : A → Flow A
  hangs : A → Flow A

infixl 5 ◌>>=◌
abbrev pub ◌>>=◌ {ℓ} : {A : Type ℓ} → Flow A → (A → Flow A) → Flow A
goes_on a >>= f = f a
fails a >>= f = fails a
hangs a >>= f = hangs a

-- What the handling of the completions changes.
pub record Handling : Type 0 where
  pub counters : Counters
  pub outlet : TickOutlet
  pub uring : Uring

-- `submit_recv(..)?`
unfoldable pub post : Handling → Posted → Flow Handling
post h (posted u) = goes_on (record h { uring = u })
post h (refused u) = fails (record h { uring = u })
post h (posting u) = hangs (record h { uring = u })

-- The body of `for (idx, res) in done.drain(..)`.
unfoldable pub handle_one : Handling → Cqe → Flow Handling
unfolding post
handle_one h q =
    let (s, out) = on_completion h.counters h.outlet q.completion in
    post (record h { counters = s; outlet = out }) (submit_recv h.uring q.user_data q.submits)

unfoldable pub handle_done : Handling → List Cqe → Flow Handling
handle_done h [] = goes_on h
handle_done h (q ∷ qs) = handle_one h q >>= λ h'. handle_done h' qs

-- The answer of `submit_and_wait`: after EINTR the queue is as it was.
pub data Wait : Type 0 where
  woken : List Cqe → Wait
  interrupted : Wait
  broken : Wait

-- What the loop finds at the start of a round: whether the stop flag or the deadline ends it, the rings
-- as the engine has left them, and what the wait brings.
pub record Turn : Type 0 where
  pub stopped : Bool
  pub tick_ring : SpscRing
  pub order_ring : SpscRing
  pub wait : Wait

-- The timeout goes to the queue if there is room.
unfoldable pub push_timeout : Uring → Uring
unfolding queue_full push
push_timeout u = if queue_full u then u else push u timeout_ud

-- A ring holds at most its capacity.
abbrev pub drain_fuel : ℕ
drain_fuel = ring_capacity + 1

-- The drain of the order ring.
unfoldable pub drain_orders : Feed → SpscRing → Flow Feed
drain_orders f ring =
    elim (read_orders drain_fuel
      (record { ring = ring; consumer = f.consumer; buf = f.order_buf })) [
        | none ↦ hangs f
        | some r ↦ goes_on (record f {
          order_count = (f.order_count + length r.0) % 2 ^ 64;
          consumer = r.1.consumer;
          order_buf = r.1.buf;
        })
      ]

-- The feed handler after its completions.
unfoldable pub after_handling : Feed → Handling → Feed
after_handling f h = record f {
  counters = h.counters;
  producer = h.outlet.producer;
  uring = h.uring;
}

unfoldable pub handled : Feed → SpscRing → Flow Handling → Flow Feed
unfolding after_handling
handled f order_ring (goes_on h) = drain_orders (after_handling f h) order_ring
handled f order_ring (fails h) = fails (after_handling f h)
handled f order_ring (hangs h) = hangs (after_handling f h)

unfoldable pub after_wait : Feed → Turn → Wait → Flow Feed
unfolding submit handled
after_wait f t (woken cqes) = handled f t.order_ring (
    handle_done
      (record {
        counters = f.counters;
        outlet = record { ring = t.tick_ring; producer = f.producer };
        uring = submit f.uring;
      })
      (done_of cqes))
after_wait f t interrupted = goes_on f
after_wait f t broken = fails f

-- A round of the loop.
unfoldable pub feed_round : Feed → Turn → Flow Feed
unfolding push_timeout after_wait
feed_round f t = after_wait (record f { uring = push_timeout f.uring }) t t.wait

-- The loop of `main`.
unfoldable pub feed_loop : Feed → List Turn → Flow Feed
feed_loop f [] = goes_on f
feed_loop f (t ∷ ts) =
    let rest = feed_round f t >>= λ f'. feed_loop f' ts in if t.stopped then goes_on f else rest
