-- ===== src/Exchange/Loop.antt =====
-- crates/mock-exchange/src/main.rs: the symbols at the start, and the whole loop with its pacing.
use dummy_benchmark.Base.{
  ℕ, ◌-◌, ltb, sym, ◌+◌, ◌≤◌, ◌<◌, ◌^◌, ◌≡◌, refl, subst, ap, Bool, true, false, Option, none, some,
  List, [], ◌∷◌, ◌++◌, arith, if◌then◌else◌, if_elim,
}
use dummy_benchmark.Base.Bytes.{Bytes}
use dummy_benchmark.Base.Float.{Float}
use dummy_benchmark.Message.{MarketTick}
use dummy_benchmark.Exchange.{
  pace, SymState, Draw, Sending, Sent, send_round, with_draws, send_rounds,
}
use dummy_benchmark.Exchange.Rounds.{Sends, drawn_count, send_rounds-Sends}

-- The clock at the end of a pause.
abbrev pub wakes : ℕ × Option ℕ → ℕ
wakes (now, none) = now
wakes (now, some n) = now + n

-- Each round ends no earlier than a tick's time after the round before, counted from `due`.
abbrev pub Paced : ℕ → ℕ → List (ℕ × Option ℕ) → Type 0
Paced per_tick due [] = Unit
Paced per_tick due (p ∷ ps) = (due + per_tick ≤ wakes p) × Paced per_tick (due + per_tick) ps

Paced-le :
    (per_tick due due' : ℕ) (ps : List (ℕ × Option ℕ))
    → due ≤ due'
    → Paced per_tick due' ps
    → Paced per_tick due ps
Paced-le per_tick due due' [] le h = tt
Paced-le per_tick due due' (p ∷ ps) le h =
    (omega (arith, h.0), Paced-le per_tick (due + per_tick) (due' + per_tick) ps (omega arith) h.1)

pace-wakes :
    (next_due per_tick now : ℕ)
    → let (due, sleep) = pace next_due per_tick now in
      (next_due + per_tick ≤ wakes (now, sleep)) × (next_due + per_tick ≤ due)
unfolding pace
pace-wakes next_due per_tick now =
    let due = next_due + per_tick in
    let Late = λ (r : ℕ × Option ℕ). (due ≤ wakes (now, r.1)) × (due ≤ r.0) in
    let behind : ℕ × Option ℕ = if ltb 50_000_000 (now - due) then (now, none) else (due, none) in
    if_elim Late (ltb now due) {x = (due, some (due - now))} {y = behind}
      (λ early. (ground arith, omega arith))
      (λ late.
        if_elim Late (ltb 50_000_000 (now - due)) {x = (now, none)} {y = (due, none)}
          (λ far. (ground arith, ground arith)) (λ near. (ground arith, omega arith)))

module _ (fl : Float) where
  open fl use {F, lit, add, mul}

  -- What the loop finds in a round: whether the stop flag or the deadline ends it, the draws, and the
  -- clock after the ticks in nanoseconds.
  pub record Turn : Type 0 where
    pub stopped : Bool
    pub draws : List (Draw fl)
    pub now : ℕ

  -- The symbols, each with a number from 0 to 1 for its anchor.
  unfoldable pub new_symbol : Bytes → F → SymState fl
  new_symbol name unit =
      let anchor = add (lit 50 1) (mul unit (lit 450 1)) in
      record { name = name; anchor = anchor; mid = anchor }

  -- The local variables of the loop.
  pub record Sender : Type 0 where
    pub sending : Sending
    pub symbols : List (SymState fl)
    pub next_due : ℕ

  -- What the loop leaves: whether `main` has returned at the count, the ticks, the oldest first, and
  -- for each round its clock and the sleep after it.
  pub record Ran : Type 0 where
    pub finished : Bool
    pub sender : Sender
    pub ticks : List MarketTick
    pub pauses : List (ℕ × Option ℕ)

  abbrev ran_none : Sender → Ran
  ran_none x = record { finished = false; sender = x; ticks = []; pauses = [] }

  -- `main` returns inside the round.
  abbrev ran_out : Sender → Sent fl → Ran
  ran_out x r = record {
    finished = true;
    sender = record x { sending = r.sending; symbols = r.symbols };
    ticks = r.ticks;
    pauses = [];
  }

  abbrev ran_on : List MarketTick → ℕ × Option ℕ → Ran → Ran
  ran_on ticks pause rest = record rest {
    ticks = ticks ++ rest.ticks;
    pauses = pause ∷ rest.pauses;
  }

  unfoldable pub exchange_loop : ℕ → ℕ → Sender → List Turn → Ran
  exchange_loop count per_tick x [] = ran_none x
  exchange_loop count per_tick x (t ∷ ts) =
      let r = send_round fl count x.sending (with_draws fl x.symbols t.draws) in
      let (due, sleep) = pace x.next_due per_tick t.now in
      let next : Sender = record { sending = r.sending; symbols = r.symbols; next_due = due } in
      let rest = exchange_loop count per_tick next ts in
      if t.stopped
      then ran_none x
      else if r.finished
      then ran_out x r
      else ran_on r.ticks (t.now, sleep) rest

  -- The draws of the rounds before the stop.
  abbrev pub draws_of : List Turn → List (List (Draw fl))
  draws_of [] = []
  draws_of (t ∷ ts) = let rest = draws_of ts in if t.stopped then [] else t.draws ∷ rest

  -- What the loop leaves, without the pacing.
  abbrev pub outcome : Ran → Bool × Sending × List MarketTick
  outcome r = (r.finished, r.sender.sending, r.ticks)

  abbrev went_on :
      List MarketTick → Bool × Sending × List MarketTick → Bool × Sending × List MarketTick
  went_on ticks r = (r.0, r.1, ticks ++ r.2)

  module _ (count per_tick : ℕ) where
    exchange_loop-send_rounds :
        (x : Sender) (ts : List Turn)
        → let r = exchange_loop count per_tick x ts in
          outcome r ≡ send_rounds fl count x.sending x.symbols (draws_of ts)
    unfolding exchange_loop send_rounds
    exchange_loop-send_rounds x [] = refl
    exchange_loop-send_rounds x (t ∷ ts) =
        let r = send_round fl count x.sending (with_draws fl x.symbols t.draws) in
        let next : Sender = record {
          sending = r.sending;
          symbols = r.symbols;
          next_due = (pace x.next_due per_tick t.now).0;
        } in
        let rest = exchange_loop count per_tick next ts in
        let more = ran_on r.ticks (t.now, (pace x.next_due per_tick t.now).1) rest in
        let ih = exchange_loop-send_rounds next ts in
        elim t.stopped
          as (λ b.
            outcome (if b then ran_none x else if r.finished then ran_out x r else more)
            ≡ send_rounds fl count x.sending x.symbols (if b then [] else t.draws ∷ draws_of ts)) [
              | true ↦ refl
              | false ↦
                  elim r.finished
                    as (λ b. outcome (if b then ran_out x r else more) ≡ (
                      if b
                      then (true, r.sending, r.ticks)
                      else went_on r.ticks
                          (send_rounds fl count r.sending r.symbols (draws_of ts)))) [
                            | true ↦ refl
                            | false ↦ ap (went_on r.ticks) ih
                          ]
            ]

    -- However the clock runs, the rounds keep the rate: the `k`th round ends, with its sleep, no earlier
    -- than `k` times the time of a tick after the due time at the start.
    pub exchange_loop-Paced :
        (x : Sender) (ts : List Turn)
        → Paced per_tick x.next_due (exchange_loop count per_tick x ts).pauses
    unfolding exchange_loop
    exchange_loop-Paced x [] = tt
    exchange_loop-Paced x (t ∷ ts) =
        let r = send_round fl count x.sending (with_draws fl x.symbols t.draws) in
        let next : Sender = record {
          sending = r.sending;
          symbols = r.symbols;
          next_due = (pace x.next_due per_tick t.now).0;
        } in
        let rest = exchange_loop count per_tick next ts in
        let pause : ℕ × Option ℕ = (t.now, (pace x.next_due per_tick t.now).1) in
        let more = ran_on r.ticks pause rest in
        let (late, moved) = pace-wakes x.next_due per_tick t.now in
        let Keeps = λ (q : Ran). Paced per_tick x.next_due q.pauses in
        let all : Keeps more = (
          late,
          Paced-le per_tick (x.next_due + per_tick) next.next_due rest.pauses moved
              (exchange_loop-Paced next ts),
        ) in
        if_elim Keeps t.stopped {x = ran_none x} {y = if r.finished then ran_out x r else more}
          (λ _. tt)
          (λ _. if_elim Keeps r.finished {x = ran_out x r} {y = more} (λ _. tt) (λ _. all))

    -- The loop with its pacing and its ends sends what the rounds before the stop send: over all of them
    -- the ticks are numbered without a gap from the one after `k`, and `main` returns exactly at the count.
    pub exchange_loop-Sends :
        (k : ℕ) (x : Sender) (ts : List Turn)
        → x.sending.seq ≡ k
        → x.sending.sent_total ≡ k
        → (0 < count → k < count)
        → k + drawn_count fl (draws_of ts) < 2 ^ 64
        → let r = exchange_loop count per_tick x ts in
          Sends count k r.finished r.sender.sending r.ticks
    exchange_loop-Sends k x ts a b limit room =
        subst (λ (q : Bool × Sending × List MarketTick). Sends count k q.0 q.1 q.2)
          (sym (exchange_loop-send_rounds x ts))
          (send_rounds-Sends fl count k x.sending x.symbols (draws_of ts) a b limit room)
