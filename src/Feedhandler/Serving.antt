-- ===== src/Feedhandler/Serving.antt =====
-- A round of the loop of `main` in crates/feedhandler/src/main.rs, when io_uring works.
use mathlib.Core.List.{append_assoc, append-nil}
use dummy_benchmark.Base.{
  ℕ, ◌+◌, ◌%◌, ◌^◌, ◌<◌, ◌≡◌, refl, sym, ap, subst, ◌∙◌, some, List, [], ◌∷◌, ◌++◌, length, ◌==◌,
  arith, if◌then◌else◌, Bool-cases, inl, inr, length-append, length-map, ap₂,
}
use dummy_benchmark.Message.{OrderMsg}
use dummy_benchmark.Ring.{SpscRing}
use dummy_benchmark.Feedhandler.{OrderInlet, read_orders}
use dummy_benchmark.Feedhandler.Counts.{Counted, packet_count, packets_of, on_completions-Counted}
use dummy_benchmark.Feedhandler.Posting.{posts, completions_of, user_data_of, Reposts}
use dummy_benchmark.Feedhandler.Loop.{
  timeout_ud, Uring, queue_full, push, submit, Cqe, done_of, Feed, goes_on, Handling, handle_done,
  woken, interrupted, Turn, push_timeout, drain_fuel, drain_orders, after_handling, handled,
  after_wait, feed_round,
}

-- The entries that are receives.
abbrev pub receives : List ℕ → List ℕ
receives [] = []
receives (ud ∷ uds) = let rest = receives uds in if ud == timeout_ud then rest else ud ∷ rest

pub receives-append : (xs ys : List ℕ) → receives (xs ++ ys) ≡ receives xs ++ receives ys
receives-append [] ys = refl
receives-append (x ∷ xs) ys = ground (arith, receives-append xs ys)

pub receives-done_of :
    (qs : List Cqe) → receives (user_data_of (done_of qs)) ≡ user_data_of (done_of qs)
unfolding done_of
receives-done_of [] = refl
receives-done_of (q ∷ qs) = elim (Bool-cases (q.user_data == timeout_ud)) [
  | inl timer ↦ rw (timer) (receives-done_of qs)
  | inr receive ↦ rw (receive) (rw (receive) (ap (λ l. q.user_data ∷ l) (receives-done_of qs)))
]

pub receives-push_timeout : (u : Uring) → receives (posts (push_timeout u)) ≡ receives (posts u)
unfolding push_timeout push
receives-push_timeout u = elim (Bool-cases (queue_full u)) [
  | inl crowded ↦ rw (push_timeout, crowded)
  | inr space ↦
      rw (push_timeout, space)
        (ap receives (sym (append_assoc u.submitted u.queue (timeout_ud ∷ [])))
          ∙ receives-append (posts u) (timeout_ud ∷ [])
          ∙ append-nil (receives (posts u)))
]

pub depth-push_timeout : (u : Uring) → (push_timeout u).depth ≡ u.depth
unfolding push_timeout push
depth-push_timeout u = ground arith

-- What the loop has done: each packet counted once, each completed receive posted again, each order read.
pub record Serves (f : Feed) (qs : List Cqe) (os : List OrderMsg) (f' : Feed) : Type 0 where
  pub counted : Counted (packet_count (completions_of qs)) f.counters f'.counters
  pub reposted : receives (posts f'.uring) ≡ receives (posts f.uring) ++ user_data_of qs
  pub orders_read : f'.order_count ≡ (f.order_count + length os) % 2 ^ 64

completions_of-append :
    (xs ys : List Cqe)
    → packet_count (completions_of (xs ++ ys))
      ≡ packet_count (completions_of xs) + packet_count (completions_of ys)
completions_of-append [] ys = omega arith
completions_of-append (x ∷ xs) ys = omega (arith, completions_of-append xs ys)

user_data_of-append :
    (xs ys : List Cqe) → user_data_of (xs ++ ys) ≡ user_data_of xs ++ user_data_of ys
user_data_of-append [] ys = refl
user_data_of-append (x ∷ xs) ys = ap (λ l. x.user_data ∷ l) (user_data_of-append xs ys)

pub Serves-trans :
    {f f' f'' : Feed} {qs rs all : List Cqe} {os ps every : List OrderMsg}
    → Serves f qs os f'
    → Serves f' rs ps f''
    → all ≡ qs ++ rs
    → every ≡ os ++ ps
    → Serves f all every f''
Serves-trans {f} {qs} {rs} {os} {ps} a b eq_all eq_every = record {
  counted = record {
    each_once = omega (
      arith,
      a.counted.each_once,
      b.counted.each_once,
      completions_of-append qs rs,
      ap (λ l. packet_count (completions_of l)) eq_all,
    );
    timed = omega (arith, a.counted.timed, b.counted.timed);
  };
  reposted =
      b.reposted
      ∙ ap (λ l. l ++ user_data_of rs) a.reposted
      ∙ append_assoc _ (user_data_of qs) (user_data_of rs)
      ∙ ap (λ l. receives (posts f.uring) ++ l) (sym (user_data_of-append qs rs))
      ∙ ap (λ l. receives (posts f.uring) ++ user_data_of l) (sym eq_all);
  orders_read =
      omega (arith, a.orders_read, b.orders_read, length-append os ps, ap length eq_every);
}

pub Serves-none :
    (f : Feed) (uring : Uring)
    → f.order_count < 2 ^ 64
    → receives (posts uring) ≡ receives (posts f.uring)
    → Serves f [] [] (record f { uring = uring })
Serves-none f uring fits same = record {
  counted = record { each_once = omega arith; timed = omega arith };
  reposted = same ∙ sym (append-nil (receives (posts f.uring)));
  orders_read = omega arith;
}

drain_orders-some :
    (f : Feed) (ring : SpscRing) (os : List OrderMsg) (i : OrderInlet)
    → read_orders drain_fuel (record { ring = ring; consumer = f.consumer; buf = f.order_buf })
      ≡ some (os, i)
    → drain_orders f ring
      ≡ goes_on (record f {
        order_count = (f.order_count + length os) % 2 ^ 64;
        consumer = i.consumer;
        order_buf = i.buf;
      })
unfolding drain_orders
drain_orders-some f ring os i e = rw (drain_orders, e)

module _ (f : Feed) (t : Turn) where
  abbrev pub timed_feed : Feed
  timed_feed = record f { uring = push_timeout f.uring }

  abbrev pub handling : Handling
  handling = record {
    counters = f.counters;
    outlet = record { ring = t.tick_ring; producer = f.producer };
    uring = submit (push_timeout f.uring);
  }

  -- The handling of the completions, from a loop that stands before position `c`.
  abbrev pub drained : Handling → List OrderMsg → OrderInlet → Feed
  drained h os i = record f {
    counters = h.counters;
    producer = h.outlet.producer;
    uring = h.uring;
    order_count = (f.order_count + length os) % 2 ^ 64;
    consumer = i.consumer;
    order_buf = i.buf;
  }

  pub feed_round-woken :
      (cqes : List Cqe) (h : Handling) (os : List OrderMsg) (i : OrderInlet)
      → t.wait ≡ woken cqes
      → handle_done handling (done_of cqes) ≡ goes_on h
      → read_orders drain_fuel
          (record { ring = t.order_ring; consumer = f.consumer; buf = f.order_buf })
        ≡ some (os, i)
      → feed_round f t ≡ goes_on (drained h os i)
  unfolding feed_round after_wait handled after_handling
  feed_round-woken cqes h os i wakes handles reads =
      ap (after_wait timed_feed t) wakes
      ∙ ap (handled timed_feed t.order_ring) handles
      ∙ drain_orders-some (after_handling timed_feed h) t.order_ring os i reads

  pub feed_round-interrupted : t.wait ≡ interrupted → feed_round f t ≡ goes_on timed_feed
  unfolding feed_round after_wait
  feed_round-interrupted e = ap (after_wait timed_feed t) e

  pub drained-Serves :
      (cqes : List Cqe) (h : Handling) (os : List OrderMsg) (i : OrderInlet)
      → packets_of f.counters + length cqes < 2 ^ 64
      → f.counters.wire_lat.count ≡ f.counters.recv_count + f.counters.publish_drops
      → Reposts handling cqes h
      → receives (user_data_of cqes) ≡ user_data_of cqes
      → Serves f cqes os (drained h os i)
  unfolding submit
  drained-Serves cqes h os i room timed r uds = record {
    counted = subst (Counted (packet_count (completions_of cqes)) f.counters) (sym r.counters_are) (
        on_completions-Counted f.counters handling.outlet (completions_of cqes)
          (omega (arith, length-map cqes (λ (q : Cqe). q.completion))) timed);
    reposted =
        ap receives r.posts_are
        ∙ receives-append (posts handling.uring) (user_data_of cqes)
        ∙ ap₂ (λ x y. x ++ y)
            (ap receives (append-nil (posts (push_timeout f.uring)))
              ∙ receives-push_timeout f.uring)
            uds;
    orders_read = refl;
  }
