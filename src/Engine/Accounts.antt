-- ===== src/Engine/Accounts.antt =====
-- The counters of `run_with_workers` in crates/trading-engine/src/main.rs over its whole loop.
use dummy_benchmark.Base.{
  ℕ, suc, ◌+◌, ◌^◌, ◌≤◌, ◌<◌, ◌≡◌, refl, sym, ap, subst, ◌∙◌, Bool, true, false, Option, none, some,
  List, [], ◌∷◌, arith, length, if◌then◌else◌, Bool-cases, Option-cases, inl, inr,
}
use dummy_benchmark.Message.{MarketTick}
use dummy_benchmark.Engine.{route}
use dummy_benchmark.Engine.Dispatch.{
  Totals, Inlet, Outlet, see_tick, take_tick, WorkItem, Sent, ok, full, disconnected, Meets,
  count_answer, delivered, breaks, after_tick, on_tick, dispatch_round, Turn, Dispatcher,
  turn_round, after_round, keep_item, dispatch_loop,
}
use dummy_benchmark.Engine.Rounds.{IsCounted, see_tick-IsCounted}
use dummy_benchmark.Engine.Kept.{SameTicks, drain-SameTicks}

abbrev one_if : Bool → ℕ
one_if true = 1
one_if false = 0

abbrev handed : ℕ → Meets → MarketTick → ℕ × WorkItem
handed n m t = (route t.symbol n, record { tick = t; enqueued_ns = m.enqueued_ns })

-- Every tick seen in `k` rounds has been handed over, or counted as dropped, or was the one that ended
-- the loop.
pub record Accounts (s : Totals) (items : List (ℕ × WorkItem)) (lost k : ℕ) (s' : Totals)
    : Type 0 where
  pub balance :
      s'.ticks_seen + s.ticks_dropped ≡ s.ticks_seen + s'.ticks_dropped + length items + lost
  pub within : s'.ticks_seen ≤ s.ticks_seen + k
  pub ordered : s'.ticks_dropped ≤ s'.ticks_seen
  pub counted : IsCounted s'

module _ (s : Totals) (room : s.ticks_seen + 1 < 2 ^ 64) (fits : s.ticks_dropped ≤ s.ticks_seen)
    (h : IsCounted s) where
  answered :
      (m : Meets) (t : MarketTick) (item : ℕ × WorkItem) (a : Sent) {lost : ℕ}
      → one_if (breaks a) ≡ lost
      → Accounts s
          (keep_item (delivered a item) [])
          lost
          1
          (count_answer (see_tick s t m.consume_ts) a)
  unfolding keep_item delivered breaks count_answer see_tick
  answered m t item ok e = record {
    balance = omega arith;
    within = omega arith;
    ordered = omega arith;
    counted = see_tick-IsCounted s t m.consume_ts h;
  }
  answered m t item full e =
      let c = see_tick-IsCounted s t m.consume_ts h in
      record {
        balance = omega arith;
        within = omega arith;
        ordered = omega arith;
        counted = record { transit_count = c.transit_count; end_count = c.end_count };
      }
  answered m t item disconnected e = record {
    balance = omega arith;
    within = omega arith;
    ordered = omega arith;
    counted = see_tick-IsCounted s t m.consume_ts h;
  }

Accounts-none :
    {s : Totals} (k : ℕ) → s.ticks_dropped ≤ s.ticks_seen → IsCounted s → Accounts s [] 0 k s
Accounts-none k fits h = record {
  balance = omega arith;
  within = omega arith;
  ordered = fits;
  counted = h;
}

Accounts-SameTicks :
    {s s' s'' : Totals} {items : List (ℕ × WorkItem)} {lost k : ℕ}
    → Accounts s items lost k s'
    → SameTicks s' s''
    → Accounts s items lost k s''
Accounts-SameTicks a same = record {
  balance = omega (arith, a.balance, same.seen, same.dropped);
  within = omega (arith, a.within, same.seen);
  ordered = omega (arith, a.ordered, same.seen, same.dropped);
  counted = record {
    transit_count = ap (λ l. l.count) same.transit ∙ a.counted.transit_count ∙ sym same.seen;
    end_count = ap (λ l. l.count) same.end_lat ∙ a.counted.end_count ∙ sym same.seen;
  };
}

length-keep_item :
    (item : Option (ℕ × WorkItem)) (items : List (ℕ × WorkItem))
    → length (keep_item item items) ≡ length (keep_item item []) + length items
unfolding keep_item
length-keep_item none items = omega arith
length-keep_item (some item) items = omega arith

module _ (n : ℕ) (s : Totals) (room : s.ticks_seen + 1 < 2 ^ 64)
    (fits : s.ticks_dropped ≤ s.ticks_seen) (h : IsCounted s) where
  on_tick-Accounts :
      (i : Inlet) (out : Outlet) (idle : ℕ) (m : Meets) (t : MarketTick)
      → let r = on_tick n s i out idle m t in
        Accounts s (keep_item r.item []) (one_if r.left) 1 r.totals
  unfolding on_tick after_tick
  on_tick-Accounts i out idle m t = elim (Bool-cases (breaks m.answer)) [
    | inl closed ↦
        rw (on_tick, closed) (answered s room fits h m t (handed n m t) m.answer (rw closed refl))
    | inr still_open ↦
        rw (on_tick, still_open)
          (Accounts-SameTicks
            (answered s room fits h m t (handed n m t) m.answer (rw still_open refl))
            (drain-SameTicks _ out m.orders))
  ]

  dispatch_round-Accounts :
      (i : Inlet) (out : Outlet) (idle : ℕ) (m : Meets)
      → let r = dispatch_round n s i out idle m in
        Accounts s (keep_item r.item []) (one_if r.left) 1 r.totals
  unfolding dispatch_round after_tick keep_item
  dispatch_round-Accounts i out idle m = elim (Option-cases (take_tick i).0) [
    | inl none_read ↦
        rw (dispatch_round, none_read)
          (Accounts-SameTicks (Accounts-none 1 fits h) (drain-SameTicks s out m.orders))
    | inr (t, e) ↦ rw (dispatch_round, e) (on_tick-Accounts (take_tick i).1 out idle m t)
  ]

turn_round-Accounts :
    (n : ℕ) (d : Dispatcher) (t : Turn)
    → d.totals.ticks_seen + 1 < 2 ^ 64
    → d.totals.ticks_dropped ≤ d.totals.ticks_seen
    → IsCounted d.totals
    → {lost : ℕ} → one_if (turn_round n d t).left ≡ lost
    → Accounts d.totals (keep_item (turn_round n d t).item []) lost 1 (turn_round n d t).totals
unfolding turn_round
turn_round-Accounts n d t room fits h e =
    subst
      (λ l. Accounts d.totals (keep_item (turn_round n d t).item []) l 1 (turn_round n d t).totals)
      e
      (dispatch_round-Accounts n d.totals room fits h
        (record { ring = t.tick_ring; consumer = d.consumer; buf = d.buf })
        (record { ring = t.order_ring; producer = d.producer }) d.idle_spin t.meets)

Accounts-le :
    {s s' : Totals} {items : List (ℕ × WorkItem)} {lost k j : ℕ}
    → k ≤ j
    → Accounts s items lost k s'
    → Accounts s items lost j s'
Accounts-le le a = record {
  balance = a.balance;
  within = omega (arith, a.within);
  ordered = a.ordered;
  counted = a.counted;
}

-- Two stretches of rounds, one after the other.
Accounts-trans :
    {s s' s'' : Totals} (item : Option (ℕ × WorkItem)) {items : List (ℕ × WorkItem)} {lost k j : ℕ}
    → Accounts s (keep_item item []) 0 j s'
    → Accounts s' items lost k s''
    → Accounts s (keep_item item items) lost (j + k) s''
Accounts-trans item {items} a b = record {
  balance = omega (arith, a.balance, b.balance, length-keep_item item items);
  within = omega (arith, a.within, b.within);
  ordered = b.ordered;
  counted = b.counted;
}

-- The round reads a tick whose channel is closed.
pub meets_closed : Dispatcher → Turn → Bool
meets_closed d t =
    elim (take_tick (record { ring = t.tick_ring; consumer = d.consumer; buf = d.buf })).0 [
      | none ↦ false
      | some _ ↦ breaks t.meets.answer
    ]

turn_round-left : (n : ℕ) (d : Dispatcher) (t : Turn) → (turn_round n d t).left ≡ meets_closed d t
unfolding turn_round dispatch_round on_tick after_tick meets_closed
turn_round-left n d t =
    let i : Inlet = record { ring = t.tick_ring; consumer = d.consumer; buf = d.buf } in
    elim (Option-cases (take_tick i).0) [
      | inl none_read ↦ rw (dispatch_round, meets_closed, none_read) refl
      | inr (tick, e) ↦ elim (Bool-cases (breaks t.meets.answer)) [
        | inl closed ↦ rw (dispatch_round, meets_closed, e, on_tick, closed) refl
        | inr still_open ↦ rw (dispatch_round, meets_closed, e, on_tick, still_open) refl
      ]
    ]

-- The ticks that neither go to a worker nor into a count: the one whose channel is closed, at which the
-- loop ends, if it comes to one.
pub lost_ticks : ℕ → Dispatcher → List Turn → ℕ
lost_ticks n d [] = 0
lost_ticks n d (t ∷ ts) =
    let rest = lost_ticks n (after_round (turn_round n d t)) ts in
    if t.stopped then 0 else if meets_closed d t then 1 else rest

pub lost_ticks-le : (n : ℕ) (d : Dispatcher) (ts : List Turn) → lost_ticks n d ts ≤ 1
unfolding lost_ticks
lost_ticks-le n d [] = omega arith
lost_ticks-le n d (t ∷ ts) = ground (arith, lost_ticks-le n (after_round (turn_round n d t)) ts)

-- Over the whole loop, whatever the rings and the channels do: each tick seen went to a worker or
-- into the count of drops, but for one at which the loop ends when its channel is closed, and each
-- histogram has one sample for each tick seen. Before the loop the histograms agree with the count
-- of ticks, no more are dropped than seen, and the rounds do not take that count to 2 ^ 64.
pub dispatch_loop-Accounts :
    (n : ℕ) (d : Dispatcher) (ts : List Turn)
    → d.totals.ticks_seen + length ts < 2 ^ 64
    → d.totals.ticks_dropped ≤ d.totals.ticks_seen
    → IsCounted d.totals
    → let (items, d') = dispatch_loop n d ts in
      Accounts d.totals items (lost_ticks n d ts) (length ts) d'.totals
unfolding dispatch_loop after_round lost_ticks
dispatch_loop-Accounts n d [] room fits h = Accounts-none 0 fits h
dispatch_loop-Accounts n d (t ∷ ts) room fits h =
    let r = turn_round n d t in
    let a = λ (b : Bool).
      λ (e : r.left ≡ b). turn_round-Accounts n d t (omega arith) fits h (ap one_if e) in
    let rest = dispatch_loop n (after_round r) ts in
    let lost = lost_ticks n (after_round r) ts in
    let Ends : Bool → Bool → Bool → Type 0 = λ stopped left closed.
      let x : List (ℕ × WorkItem) × Dispatcher =
        if stopped
        then ([], d)
        else if left
        then (keep_item r.item [], after_round r)
        else (keep_item r.item rest.0, rest.1) in
      Accounts d.totals x.0 (if stopped then 0 else if closed then 1 else lost) (suc (length ts))
        x.1.totals in
    subst (λ c. Ends t.stopped r.left c) (turn_round-left n d t)
      (elim (Bool-cases t.stopped) [
        | inl stopped ↦
            subst (λ b. Ends b r.left r.left) (sym stopped) (Accounts-none (suc (length ts)) fits h)
        | inr going ↦
            subst (λ b. Ends b r.left r.left) (sym going)
              (elim (Bool-cases r.left) [
                | inl left ↦
                    subst (λ b. Ends false b b) (sym left) (Accounts-le (omega arith) (a true left))
                | inr stays ↦
                    let b =
                      dispatch_loop-Accounts n (after_round r) ts
                        (omega (arith, (a false stays).within)) (a false stays).ordered
                        (a false stays).counted in
                    subst (λ b. Ends false b b) (sym stays)
                      (Accounts-le (omega arith) (Accounts-trans r.item (a false stays) b))
              ])
      ])
