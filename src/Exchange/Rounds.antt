-- ===== src/Exchange/Rounds.antt =====
-- The ticks of crates/mock-exchange/src/main.rs: how they are numbered, and when the loop ends.
use dummy_benchmark.Base.{
  ℕ, suc, ◌+◌, ◌≤◌, ◌<◌, ◌^◌, ◌≡◌, subst, true, false, Bool, none, some, List, [], ◌∷◌, ◌++◌, arith,
  length, length-append, map, if_elim,
}
use dummy_benchmark.Base.Float.{Float}
use dummy_benchmark.Message.{MarketTick}
use dummy_benchmark.Exchange.{
  pace, SymState, Draw, Sending, Sent, make_tick, end_at, go_on, send_symbol, count_reached,
  send_round, with_draws, send_rounds,
}

-- The sequence numbers go up by one from `k + 1`.
unfoldable pub Numbered : ℕ → List MarketTick → Type 0
Numbered k [] = Unit
Numbered k (t ∷ ts) = (t.seq_num ≡ k + 1) × Numbered (k + 1) ts

Numbered-append :
    (k : ℕ) (ts us : List MarketTick)
    → Numbered k ts
    → Numbered (k + length ts) us
    → Numbered k (ts ++ us)
unfolding Numbered
Numbered-append k [] us h j = subst (λ n. Numbered n us) (omega arith) j
Numbered-append k (t ∷ ts) us h j =
    (h.0, Numbered-append (k + 1) ts us h.1 (subst (λ n. Numbered n us) (omega arith) j))

-- What has been sent after `k` ticks: `count` is the limit, 0 for none.
pub record Sends (count k : ℕ) (finished : Bool) (s : Sending) (ticks : List MarketTick)
    : Type 0 where
  pub numbered : Numbered k ticks
  pub seq_is : s.seq ≡ k + length ticks
  pub sent_is : s.sent_total ≡ k + length ticks
  pub at_limit : finished ≡ true → (0 < count) × (s.sent_total ≡ count)
  pub below_limit : finished ≡ false → 0 < count → s.sent_total < count

Sends-none :
    {count k : ℕ} {s : Sending}
    → s.seq ≡ k
    → s.sent_total ≡ k
    → (0 < count → k < count)
    → Sends count k false s []
unfolding Numbered
Sends-none a b limit = record {
  numbered = tt;
  seq_is = omega arith;
  sent_is = omega arith;
  at_limit = λ e. absurd (false_true e);
  below_limit = λ _ some_limit. omega (arith, limit some_limit);
}
  where
    false_true : false ≡ true → ⊥
    false_true e = ground arith

module _ (fl : Float) where
  abbrev pub drawn_count : List (List (Draw fl)) → ℕ
  drawn_count [] = 0
  drawn_count (ds ∷ rounds) = length ds + drawn_count rounds

  length-with_draws :
      (ss : List (SymState fl)) (ds : List (Draw fl)) → length (with_draws fl ss ds) ≤ length ds
  unfolding with_draws
  length-with_draws [] ds = omega arith
  length-with_draws (s ∷ ss) [] = omega arith
  length-with_draws (s ∷ ss) (d ∷ ds) = omega (arith, length-with_draws ss ds)

  module _ (count : ℕ) where
    Sends-one :
        (k : ℕ) (s : Sending) (x : SymState fl) (d : Draw fl)
        → s.seq ≡ k
        → s.sent_total ≡ k
        → (0 < count → k < count)
        → k + 1 < 2 ^ 64
        → let (s', _, tick) = send_symbol fl s x d in
          (tick.seq_num ≡ k + 1) × (s'.seq ≡ k + 1) × (s'.sent_total ≡ k + 1)
    unfolding send_symbol make_tick
    Sends-one k s x d a b limit room = (omega arith, omega arith, omega arith)

    limit_after :
        (k : ℕ) (s : Sending)
        → s.sent_total ≡ k + 1
        → (0 < count → k < count)
        → count_reached count s.sent_total ≡ false
        → 0 < count
        → k + 1 < count
    unfolding count_reached
    limit_after k s b limit further some_limit = ground (arith, limit some_limit)

    Sends-end :
        (k : ℕ) (s : Sending) (x : SymState fl) (tick : MarketTick) (others : List (SymState fl))
        → tick.seq_num ≡ k + 1
        → s.seq ≡ k + 1
        → s.sent_total ≡ k + 1
        → (0 < count → k < count)
        → count_reached count s.sent_total ≡ true
        → let r = end_at fl s x tick others in Sends count k r.finished r.sending r.ticks
    unfolding end_at Numbered count_reached
    Sends-end k s x tick others seq a b limit reached = record {
      numbered = (seq, tt);
      seq_is = omega (arith, a);
      sent_is = omega (arith, b);
      at_limit = λ _. (ground arith, ground arith);
      below_limit = λ e. absurd (true_false e);
    }
      where
        true_false : true ≡ false → ⊥
        true_false e = ground arith

    Sends-more :
        (k : ℕ) (s : Sending) (x : SymState fl) (tick : MarketTick) (r : Sent fl)
        → tick.seq_num ≡ k + 1
        → Sends count (k + 1) r.finished r.sending r.ticks
        → let r' = go_on fl x tick r in Sends count k r'.finished r'.sending r'.ticks
    unfolding go_on Numbered
    Sends-more k s x tick r seq h = record {
      numbered = (seq, h.numbered);
      seq_is = omega (arith, h.seq_is);
      sent_is = omega (arith, h.sent_is);
      at_limit = h.at_limit;
      below_limit = h.below_limit;
    }

    send_round-Sends :
        (k : ℕ) (s : Sending) (xs : List (SymState fl × Draw fl))
        → s.seq ≡ k
        → s.sent_total ≡ k
        → (0 < count → k < count)
        → k + length xs < 2 ^ 64
        → let r = send_round fl count s xs in Sends count k r.finished r.sending r.ticks
    unfolding send_round
    send_round-Sends k s [] a b limit room = Sends-none a b limit
    send_round-Sends k s ((x, d) ∷ xs) a b limit room =
        let (seq, a', b') = Sends-one k s x d a b limit (omega arith) in
        let s' = (send_symbol fl s x d).0 in
        let x' = (send_symbol fl s x d).1 in
        let tick = (send_symbol fl s x d).2 in
        let rest = send_round fl count s' xs in
        if_elim (λ (r : Sent fl). Sends count k r.finished r.sending r.ticks)
          (count_reached count s'.sent_total) {x = end_at fl s' x' tick (map (λ y. y.0) xs)}
          {y = go_on fl x' tick rest}
          (λ reached. Sends-end k s' x' tick (map (λ y. y.0) xs) seq a' b' limit reached)
          (λ further. Sends-more k s' x' tick rest seq (
            send_round-Sends (k + 1) s' xs a' b' (limit_after k s' b' limit further) (omega arith)))

    length-send_round :
        (s : Sending) (xs : List (SymState fl × Draw fl))
        → length (send_round fl count s xs).ticks ≤ length xs
    unfolding send_round end_at go_on
    length-send_round s [] = omega arith
    length-send_round s ((x, d) ∷ xs) =
        let s' = (send_symbol fl s x d).0 in
        let x' = (send_symbol fl s x d).1 in
        let tick = (send_symbol fl s x d).2 in
        if_elim (λ (r : Sent fl). length r.ticks ≤ suc (length xs))
          (count_reached count s'.sent_total) {x = end_at fl s' x' tick (map (λ y. y.0) xs)}
          {y = go_on fl x' tick (send_round fl count s' xs)} (λ reached. omega arith)
          (λ further. omega (arith, length-send_round s' xs))

    -- Rounds of ticks one after the other.
    Sends-append :
        (k : ℕ) (s s' : Sending) (ts us : List MarketTick) (finished : Bool)
        → Sends count k false s ts
        → Sends count (k + length ts) finished s' us
        → Sends count k finished s' (ts ++ us)
    Sends-append k s s' ts us finished a b = record {
      numbered = Numbered-append k ts us a.numbered b.numbered;
      seq_is = omega (arith, b.seq_is, length-append ts us);
      sent_is = omega (arith, b.sent_is, length-append ts us);
      at_limit = b.at_limit;
      below_limit = b.below_limit;
    }

    -- From counters that both stand at `k`, below the count if there is one, and as long as the
    -- draws do not take them to 2 ^ 64: over all rounds the ticks are numbered from `k + 1`
    -- without a gap, both counters grow by the number of ticks sent, `main` returns only when the
    -- count is reached, and the count is not reached before it returns.
    pub send_rounds-Sends :
        (k : ℕ) (s : Sending) (symbols : List (SymState fl)) (rounds : List (List (Draw fl)))
        → s.seq ≡ k
        → s.sent_total ≡ k
        → (0 < count → k < count)
        → k + drawn_count rounds < 2 ^ 64
        → let (finished, s', ticks) = send_rounds fl count s symbols rounds in
          Sends count k finished s' ticks
    unfolding send_rounds
    send_rounds-Sends k s symbols [] a b limit room = Sends-none a b limit
    send_rounds-Sends k s symbols (ds ∷ rounds) a b limit room =
        let xs = with_draws fl symbols ds in
        let few = length-with_draws symbols ds in
        let h = send_round-Sends k s xs a b limit (omega (arith, few)) in
        let r = send_round fl count s xs in
        let rest = send_rounds fl count r.sending r.symbols rounds in
        let ends : Bool × Sending × List MarketTick = (true, r.sending, r.ticks) in
        let more : Bool × Sending × List MarketTick = (rest.0, rest.1, r.ticks ++ rest.2) in
        if_elim (λ (x : Bool × Sending × List MarketTick). Sends count k x.0 x.1 x.2) r.finished
          {x = ends} {y = more} (λ done. subst (λ f. Sends count k f r.sending r.ticks) done h)
          (λ going.
            let short = length-send_round s xs in
            Sends-append k r.sending rest.1 r.ticks rest.2 rest.0
              (subst (λ f. Sends count k f r.sending r.ticks) going h)
              (send_rounds-Sends (k + length r.ticks) r.sending r.symbols rounds h.seq_is h.sent_is
                (λ some_limit. omega (arith, h.below_limit going some_limit, h.sent_is))
                (omega (arith, short, few))))

-- The due time after a round is never more than a round ahead of the clock nor more than 50 ms behind
-- it, when it was not ahead of the clock before the round; a sleep ends at the due time.
pub pace-bounds :
    (next_due per_tick now : ℕ)
    → next_due ≤ now
    → let (due, sleep) = pace next_due per_tick now in
      (due ≤ now + per_tick)
      × (now ≤ due + 50_000_000)
      × ((n : ℕ) → sleep ≡ some n → now + n ≡ due)
      × (sleep ≡ none → due ≤ now)
unfolding pace
pace-bounds next_due per_tick now behind =
    (ground arith, ground arith, λ n e. ground arith, λ e. ground arith)
