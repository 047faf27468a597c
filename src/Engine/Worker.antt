-- ===== src/Engine/Worker.antt =====
-- crates/trading-engine/src/main.rs: `worker_main`, against the strategy run over the ticks that the
-- worker received.
use dummy_benchmark.Base.{
  ℕ, ◌≡◌, refl, ap, ◌⊎◌, Bool, true, false, Option, none, some, List, [], ◌∷◌, ◌++◌, arith,
  if◌then◌else◌, if_elim, add64, inl, inr, saturating_sub,
}
use dummy_benchmark.Base.Bytes.{Bytes}
use dummy_benchmark.Base.Float.{Float}
use dummy_benchmark.Latency
use dummy_benchmark.Latency.{LatencyHistogram, record_sample}
use dummy_benchmark.Message.{OrderMsg}
use dummy_benchmark.Engine.{SymbolState, Params, first_order_id, strategy_step}
use dummy_benchmark.Engine.Dispatch.{WorkItem}
use dummy_benchmark.Engine.Orders.{Event, keep_order, run_strategy}

pub record WorkerStats : Type 0 where
  pub ticks : ℕ
  pub orders : ℕ
  pub dispatch_lat : LatencyHistogram

abbrev pub no_stats : WorkerStats
no_stats = record { ticks = 0; orders = 0; dispatch_lat = Latency.new }

-- What `recv_timeout` answers. An item comes with the clock at the read of its latency and at its
-- step, and with whether the order channel would take an order.
pub data Received : Type 0 where
  item : WorkItem → ℕ → ℕ → Bool → Received
  timeout disconnected : Received

-- A round of the loop: the stop flag at its start, and what it receives.
pub record Listen : Type 0 where
  pub stopped : Bool
  pub received : Received

-- `xs` is the front of `ys`.
abbrev pub IsFront {ℓ} : {A : Type ℓ} → List A → List A → Type ℓ
IsFront {A} xs ys = (rest : List A) × (xs ++ rest ≡ ys)

module _ (fl : Float) (p : Params fl) where
  pub record Worker : Type 0 where
    pub state : List (Bytes × SymbolState fl)
    pub stats : WorkerStats
    pub next_order_id : ℕ

  -- `worker_main` before its loop.
  unfoldable pub start_worker : ℕ → Worker
  start_worker id = record { state = []; stats = no_stats; next_order_id = first_order_id id }

  -- The worker after an item, and its order.
  unfoldable pub handle_item : Worker → WorkItem → ℕ → ℕ → Worker × Option OrderMsg
  handle_item w i handled_ns now =
      let (r, state') = strategy_step fl p i.tick w.state w.next_order_id now in
      (
        record {
          state = state';
          stats = record {
            ticks = add64 w.stats.ticks 1;
            orders = elim r.order [ none ↦ w.stats.orders | some _ ↦ add64 w.stats.orders 1 ];
            dispatch_lat =
                record_sample w.stats.dispatch_lat (saturating_sub handled_ns i.enqueued_ns);
          };
          next_order_id = r.next_order_id;
        },
        r.order,
      )

  -- Whether the loop goes on, the worker, and the order that the channel took. The worker returns
  -- when the channel takes no order any more.
  unfoldable pub hand_over : Worker × Option OrderMsg → Bool → Bool × Worker × Option OrderMsg
  hand_over (w, none) taken = (true, w, none)
  hand_over (w, some o) true = (true, w, some o)
  hand_over (w, some o) false = (false, w, none)

  unfoldable pub worker_round : Worker → Received → Bool × Worker × Option OrderMsg
  worker_round w (item i handled_ns now taken) = hand_over (handle_item w i handled_ns now) taken
  worker_round w timeout = (true, w, none)
  worker_round w disconnected = (false, w, none)

  -- The loop of `worker_main`: the orders that the channel took, the oldest first, and the worker.
  unfoldable pub worker_loop : Worker → List Listen → List OrderMsg × Worker
  worker_loop w [] = ([], w)
  worker_loop w (l ∷ ls) =
      let (goes_on, w', order) = worker_round w l.received in
      let (orders, last) = worker_loop w' ls in
      if l.stopped
      then ([], w)
      else if goes_on
      then (keep_order order orders, last)
      else (keep_order order [], w')

  -- `worker_main`, after it has pinned its thread.
  unfoldable pub worker_main : ℕ → List Listen → List OrderMsg × WorkerStats
  worker_main id ls = let (orders, w) = worker_loop (start_worker id) ls in (orders, w.stats)

  unfoldable pub event_of : Received → List Event → List Event
  event_of (item i _ now _) es = record { tick = i.tick; now = now } ∷ es
  event_of timeout es = es
  event_of disconnected es = es

  -- The ticks of a row of rounds, with the clocks of their steps.
  unfoldable pub ticks_of : List Listen → List Event
  ticks_of [] = []
  ticks_of (l ∷ ls) = event_of l.received (ticks_of ls)

  abbrev pub orders_of : Worker → List Event → List OrderMsg
  orders_of w es = (run_strategy fl p w.state w.next_order_id es).0

  hand_over_cases :
      (w : Worker) (o : Option OrderMsg) (taken : Bool)
      → (hand_over (w, o) taken ≡ (true, w, o)) ⊎ (hand_over (w, o) taken ≡ (false, w, none))
  unfolding hand_over
  hand_over_cases w none taken = inl refl
  hand_over_cases w (some o) true = inl refl
  hand_over_cases w (some o) false = inr refl

  pub handle_item-orders :
      (w : Worker) (i : WorkItem) (handled_ns now : ℕ) (es : List Event)
      → let (w', order) = handle_item w i handled_ns now in
        orders_of w (record { tick = i.tick; now = now } ∷ es) ≡ keep_order order (orders_of w' es)
  unfolding run_strategy handle_item
  handle_item-orders w i handled_ns now es = refl

  -- What a round does with an order follows the strategy's run, or it ends the loop without one.
  worker_round-orders :
      (w : Worker) (r : Received) (es : List Event)
      → let (goes_on, w', order) = worker_round w r in
        ((goes_on ≡ true) × (orders_of w (event_of r es) ≡ keep_order order (orders_of w' es)))
        ⊎ ((goes_on ≡ false) × (order ≡ none))
  unfolding worker_round event_of keep_order
  worker_round-orders w (item i handled_ns now taken) es =
      elim (hand_over_cases (handle_item w i handled_ns now).0 (handle_item w i handled_ns now).1
        taken) [
          | inl on ↦ rw on (inl (refl, handle_item-orders w i handled_ns now es))
          | inr off ↦ rw off (inr (refl, refl))
        ]
  worker_round-orders w timeout es = inl (refl, refl)
  worker_round-orders w disconnected es = inr (refl, refl)

  IsFront-keep_order :
      (xs ys : List OrderMsg) (o : Option OrderMsg)
      → IsFront xs ys
      → IsFront (keep_order o xs) (keep_order o ys)
  unfolding keep_order
  IsFront-keep_order xs ys none f = f
  IsFront-keep_order xs ys (some o) (rest, e) = (rest, ap (λ t. o ∷ t) e)

  -- The orders that a worker hands over are the first of the strategy's orders for the ticks of its
  -- rounds, in their order, whatever the channels and the stop flag do.
  pub worker_loop-IsFront :
      (w : Worker) (ls : List Listen)
      → IsFront (worker_loop w ls).0 (run_strategy fl p w.state w.next_order_id (ticks_of ls)).0
  unfolding worker_loop ticks_of keep_order
  worker_loop-IsFront w [] = (_, refl)
  worker_loop-IsFront w (l ∷ ls) =
      let (goes_on, w', order) = worker_round w l.received in
      let rest = worker_loop w' ls in
      let ends : List OrderMsg × Worker = (keep_order order [], w') in
      let more : List OrderMsg × Worker = (keep_order order rest.0, rest.1) in
      let Front = λ (r : List OrderMsg × Worker).
        IsFront r.0 (orders_of w (event_of l.received (ticks_of ls))) in
      if_elim Front l.stopped {x = ([], w)} {y = if goes_on then more else ends} (λ _. (_, refl))
        (λ _. elim (worker_round-orders w l.received (ticks_of ls)) [
          | inl (goes, e) ↦
              if_elim Front goes_on {x = more} {y = ends}
                (λ _. rw e (IsFront-keep_order _ _ order (worker_loop-IsFront w' ls)))
                (λ off. ground arith)
          | inr (ends_now, e) ↦
              if_elim Front goes_on {x = more} {y = ends} (λ on. ground arith) (λ _. rw e (_, refl))
        ])
