-- ===== src/Engine/Shutdown.antt =====
-- The end of `run_with_workers` in crates/trading-engine/src/main.rs: the dispatcher, which has closed the
-- tick channels, joins the workers, while these still run `worker_main` on the ticks in their channels
-- and send orders to a bounded channel that only the dispatcher empties.
use mathlib.Core.List.{append_assoc, append-nil}
use dummy_benchmark.Base.{
  ℕ, suc, ◌+◌, ◌≤◌, ◌<◌, ◌≡◌, ◌↔◌, refl, sym, ap, ◌∙◌, subst, Bool, true, false, Option, none, some,
  List, [], ◌∷◌, ◌++◌, map, length, All, arith,
}
use dummy_benchmark.Base.Float.{Float}
use dummy_benchmark.Message.{OrderMsg}
use dummy_benchmark.Engine.{Params}
use dummy_benchmark.Engine.Dispatch.{WorkItem}
use dummy_benchmark.Engine.Orders.{Event, keep_order, run_strategy}
use dummy_benchmark.Engine.Worker.{Worker, handle_item, handle_item-orders, orders_of}

-- The capacity of the orders channel.
abbrev pub channel_capacity : ℕ
channel_capacity = 8192

-- An item of a tick channel, with the clock as the worker will read it for the latency and at the step.
pub record Queued : Type 0 where
  pub item : WorkItem
  pub handled_ns : ℕ
  pub now : ℕ

abbrev pub events : List Queued → List Event
events qs = map (λ q. record { tick = q.item.tick; now = q.now }) qs

module _ (fl : Float) (p : Params fl) where
  -- A worker stands before its loop's test, with what its closed channel still has, or in `send` with an
  -- order, or it has returned.
  pub data Phase : Type 0 where
    looping : Worker fl p → List Queued → Phase
    sending : Worker fl p → OrderMsg → List Queued → Phase
    returned : Phase

  -- The dispatcher waits in `join`: the orders in their channel, the stop flag, and the workers.
  pub record Joining : Type 0 where
    pub waiting : ℕ
    pub stop : Bool
    pub workers : List Phase

  abbrev pub at : ℕ → Bool → List Phase → Joining
  at waiting stop workers = record { waiting = waiting; stop = stop; workers = workers }

  -- The worker after an item: it sends the order if there is one.
  abbrev pub taken : Worker fl p × Option OrderMsg → List Queued → Phase
  taken (w, none) qs = looping w qs
  taken (w, some o) qs = sending w o qs

  pub data Step : Joining → Joining → Type 0 where
    -- the loop's test, and an item
    receive :
        {n : ℕ} (before after : List Phase) (w : Worker fl p) (q : Queued) (qs : List Queued)
        → Step
            (at n false (before ++ looping w (q ∷ qs) ∷ after))
            (at n false (before ++ taken (handle_item fl p w q.item q.handled_ns q.now) qs ∷ after))
    -- `order_tx.send`, which blocks while the channel is full
    send :
        {n : ℕ} {b : Bool} (before after : List Phase) (w : Worker fl p) (o : OrderMsg)
        (qs : List Queued)
        → n < channel_capacity
        → Step
            (at n b (before ++ sending w o qs ∷ after))
            (at (n + 1) b (before ++ looping w qs ∷ after))
    -- the loop's test, and a channel that is empty and closed
    drained :
        {n : ℕ} (before after : List Phase) (w : Worker fl p)
        → Step
            (at n false (before ++ looping w [] ∷ after))
            (at n false (before ++ returned ∷ after))
    -- the loop's test finds the stop flag
    stopped :
        {n : ℕ} (before after : List Phase) (w : Worker fl p) (qs : List Queued)
        → Step (at n true (before ++ looping w qs ∷ after)) (at n true (before ++ returned ∷ after))
    -- the handler of Ctrl-C
    interrupt : {n : ℕ} {b : Bool} (ps : List Phase) → Step (at n b ps) (at n true ps)

  pub data Reach (s : Joining) : Joining → Type 0 where
    here : Reach s s
    next : {t u : Joining} → Reach s t → Step t u → Reach s u

  Reach-trans : {s t u : Joining} → Reach s t → Reach t u → Reach s u
  Reach-trans r here = r
  Reach-trans r (next q st) = next (Reach-trans r q) st

  -- The orders of a worker that are still to be sent: that in hand, and those of the strategy's run over
  -- the ticks in its channel.
  abbrev pub owed : Phase → ℕ
  owed (looping w qs) = length (orders_of fl p w (events qs))
  owed (sending w o qs) = suc (length (orders_of fl p w (events qs)))
  owed returned = 0

  abbrev pub total : List Phase → ℕ
  total [] = 0
  total (x ∷ ps) = owed x + total ps

  abbrev pub HasReturned : Phase → Type 0
  HasReturned (looping w qs) = ⊥
  HasReturned (sending w o qs) = ⊥
  HasReturned returned = Unit

  total-append : (ps qs : List Phase) → total (ps ++ qs) ≡ total ps + total qs
  total-append [] qs = omega arith
  total-append (x ∷ ps) qs = omega (arith, total-append ps qs)

  total_swap :
      (before after : List Phase) (x y : Phase) (n m : ℕ)
      → n + owed x ≡ m + owed y
      → n + total (before ++ x ∷ after) ≡ m + total (before ++ y ∷ after)
  total_swap before after x y n m e =
      omega (arith, total-append before (x ∷ after), total-append before (y ∷ after), e)

  owed-taken :
      (r : Worker fl p × Option OrderMsg) (qs : List Queued)
      → owed (taken r qs) ≡ length (keep_order r.1 (orders_of fl p r.0 (events qs)))
  unfolding keep_order
  owed-taken (w, none) qs = refl
  owed-taken (w, some o) qs = refl

  owed_received :
      (w : Worker fl p) (q : Queued) (qs : List Queued)
      → owed (taken (handle_item fl p w q.item q.handled_ns q.now) qs) ≡ owed (looping w (q ∷ qs))
  owed_received w q qs =
      owed-taken (handle_item fl p w q.item q.handled_ns q.now) qs
      ∙ ap length (sym (handle_item-orders fl p w q.item q.handled_ns q.now (events qs)))

  owed_drained : (w : Worker fl p) → owed (looping w []) ≡ 0
  unfolding run_strategy
  owed_drained w = refl

  -- The flag does not come down again.
  Step-stop : {s t : Joining} → Step s t → t.stop ≡ false → s.stop ≡ false
  Step-stop (receive before after w q qs) e = refl
  Step-stop (send before after w o qs room) e = e
  Step-stop (drained before after w) e = refl
  Step-stop (stopped before after w qs) e = e
  Step-stop (interrupt ps) e = ground arith

  -- While the flag is down no order is lost, and the channel never holds more than its capacity.
  Step-total :
      {s t : Joining}
      → Step s t
      → t.stop ≡ false
      → s.waiting ≤ channel_capacity
      → (t.waiting + total t.workers ≡ s.waiting + total s.workers) × (t.waiting ≤ channel_capacity)
  Step-total (receive {n} before after w q qs) e fits =
      (total_swap before after _ _ n n (omega (arith, owed_received w q qs)), fits)
  Step-total (send {n} before after w o qs room) e fits =
      (total_swap before after (looping w qs) (sending w o qs) (n + 1) n (omega arith), omega arith)
  Step-total (drained {n} before after w) e fits =
      (total_swap before after returned (looping w []) n n (omega (arith, owed_drained w)), fits)
  Step-total (stopped before after w qs) e fits = absurd (ground arith)
  Step-total (interrupt ps) e fits = absurd (ground arith)

  Reach-total :
      {s t : Joining}
      → Reach s t
      → t.stop ≡ false
      → s.waiting ≤ channel_capacity
      → (t.waiting + total t.workers ≡ s.waiting + total s.workers) × (t.waiting ≤ channel_capacity)
  Reach-total here e fits = (refl, fits)
  Reach-total (next r st) e fits =
      let (same, fits') = Reach-total r (Step-stop st e) fits in
      let (same', fits'') = Step-total st e fits' in (same' ∙ same, fits'')

  module _ (before after : List Phase) where
    -- One worker of the row, at the state of the channel.
    abbrev place : ℕ → Phase → Joining
    place n x = at n false (before ++ x ∷ after)

    -- The worker can send what it owes and return.
    abbrev Finishes : Phase → Type 0
    Finishes x =
        (n : ℕ) → n + owed x ≤ channel_capacity → Reach (place n x) (place (n + owed x) returned)

    finish_taken :
        (r : Worker fl p × Option OrderMsg) (qs : List Queued)
        → ((w : Worker fl p) → Finishes (looping w qs))
        → Finishes (taken r qs)
    finish_taken (w, none) qs finish n room = finish w n room
    finish_taken (w, some o) qs finish n room =
        Reach-trans (next here (send before after w o qs (omega arith))) (
          subst (λ m. Reach (place (n + 1) (looping w qs)) (place m returned)) (omega arith)
            (finish w (n + 1) (omega arith)))

    finish_looping : (qs : List Queued) (w : Worker fl p) → Finishes (looping w qs)
    finish_looping [] w n room =
        subst (λ m. Reach (place n (looping w [])) (place m returned))
          (omega (arith, owed_drained w)) (next here (drained before after w))
    finish_looping (q ∷ qs) w n room =
        let r = handle_item fl p w q.item q.handled_ns q.now in
        let same = owed_received w q qs in
        Reach-trans (next here (receive before after w q qs)) (
          subst (λ m. Reach (place n (taken r qs)) (place m returned)) (ap (λ k. n + k) same)
            (finish_taken r qs (finish_looping qs) n (omega (arith, same))))

    finish_one : (x : Phase) → Finishes x
    finish_one (looping w qs) n room = finish_looping qs w n room
    finish_one (sending w o qs) n room = finish_taken (w, some o) qs (finish_looping qs) n room
    finish_one returned n room =
        subst (λ m. Reach (place n returned) (place m returned)) (omega arith) here

  All-last : (ps : List Phase) → All HasReturned ps → All HasReturned (ps ++ returned ∷ [])
  All-last [] h = (tt, tt)
  All-last (x ∷ ps) h = (h.0, All-last ps h.1)

  finish_from :
      (before ps : List Phase) (n : ℕ)
      → All HasReturned before
      → n + total ps ≤ channel_capacity
      → (t : Joining) × Reach (at n false (before ++ ps)) t
        × (t.stop ≡ false)
        × All HasReturned t.workers
  finish_from before [] n back room = (
    at n false (before ++ []),
    here,
    refl,
    subst (All HasReturned) (sym (append-nil before)) back,
  )
  finish_from before (x ∷ ps) n back room =
      let first = finish_one before ps x n (omega arith) in
      let (t, rest, down, all) =
        finish_from (before ++ returned ∷ []) ps (n + owed x) (All-last before back)
          (omega arith) in
      let same : (before ++ returned ∷ []) ++ ps ≡ before ++ returned ∷ ps =
        append_assoc before (returned ∷ []) ps in
      (t, Reach-trans first (subst (λ l. Reach (at (n + owed x) false l) t) same rest), down, all)

  total_returned : (ps : List Phase) → All HasReturned ps → total ps ≡ 0
  total_returned [] h = refl
  total_returned (looping w qs ∷ ps) h = absurd h.0
  total_returned (sending w o qs ∷ ps) h = absurd h.0
  total_returned (returned ∷ ps) h = omega (arith, total_returned ps h.1)

  -- At a join with the stop flag down, the workers can all return without Ctrl-C, so that the
  -- dispatcher's `join` returns, exactly when the channel has room for all the orders that they still
  -- have: those in hand, and those of the strategy's run over the ticks in their channels.
  pub Reach-finished :
      (s : Joining)
      → s.stop ≡ false
      → s.waiting ≤ channel_capacity
      → ((t : Joining) × Reach s t × (t.stop ≡ false) × All HasReturned t.workers)
        ↔ (s.waiting + total s.workers ≤ channel_capacity)
  Reach-finished s down fits = (
    fits_if_done,
    λ room.
        subst
          (λ b.
            (t : Joining) × Reach (at s.waiting b s.workers) t
            × (t.stop ≡ false)
            × All HasReturned t.workers)
          (sym down) (finish_from [] s.workers s.waiting tt room),
  )
    where
      fits_if_done :
          (t : Joining) × Reach s t × (t.stop ≡ false) × All HasReturned t.workers
          → s.waiting + total s.workers ≤ channel_capacity
      fits_if_done (t, r, down', all) =
          omega (arith, Reach-total r down' fits, total_returned t.workers all)
