-- ===== src/Engine/Ids.antt =====
-- The order ids that the workers of crates/trading-engine/src/main.rs give.
use dummy_benchmark.Base.{
  ℕ, zero, suc, ◌+◌, ◌*◌, ◌≤◌, ◌<◌, ◌^◌, ◌≡◌, ◌≢◌, refl, sym, subst, inl, inr, Option, none, some,
  List, [], ◌∷◌, arith, length, map, ap, get_or, drop, All, All-map, ap₂,
}
use dummy_benchmark.Base.Bytes.{Bytes}
use dummy_benchmark.Base.Float.{Float}
use dummy_benchmark.Message.{OrderMsg}
use dummy_benchmark.Engine.{SymbolState, Params, first_order_id, entry_of, strategy_step}
use dummy_benchmark.Engine.Cases.{entry_step_cases}
use dummy_benchmark.Engine.Orders.{Event, keep_order, run_strategy}

unfoldable pub count_from : ℕ → ℕ → List ℕ
count_from a zero = []
count_from a (suc n) = a ∷ count_from (a + 1) n

abbrev ids : List OrderMsg → List ℕ
ids os = map (λ o. o.order_id) os

cons_inj : {x y : ℕ} {xs ys : List ℕ} → x ∷ xs ≡ y ∷ ys → (x ≡ y) × (xs ≡ ys)
cons_inj h = (ap (λ l. get_or l 0 0) h, ap (λ l. drop 1 l) h)

-- The ids count up from the one after `id` to `last`.
record CountsUp (id last : ℕ) (os : List OrderMsg) : Type 0 where
  ids_are : ids os ≡ count_from (id + 1) (length os)
  last_is : last ≡ id + length os

data TakesId (id id' : ℕ) : Option OrderMsg → Type 0 where
  no_order : id' ≡ id → TakesId id id' none
  an_order : {o : OrderMsg} → o.order_id ≡ id + 1 → id' ≡ id + 1 → TakesId id id' (some o)

CountsUp-keep_order :
    {id id' last : ℕ} {r : Option OrderMsg} {os : List OrderMsg}
    → TakesId id id' r
    → CountsUp id' last os
    → CountsUp id last (keep_order r os)
unfolding keep_order count_from
CountsUp-keep_order {os} (no_order e) up = record {
  ids_are = rw (sym e) up.ids_are;
  last_is = rw (sym e) up.last_is;
}
CountsUp-keep_order {id} {os} (an_order {o} e e') up = record {
  ids_are = ap₂ (λ i is. i ∷ is) e (rw (← e') up.ids_are);
  last_is = omega (arith, up.last_is, e');
}

TakesId-le : {id id' : ℕ} {r : Option OrderMsg} → TakesId id id' r → id' ≤ id + 1
TakesId-le (no_order e) = omega arith
TakesId-le (an_order e e') = omega arith

length-keep_order :
    (r : Option OrderMsg) (os : List OrderMsg) → length (keep_order r os) ≤ length os + 1
unfolding keep_order
length-keep_order none os = omega arith
length-keep_order (some o) os = omega arith

abbrev IsBetween : ℕ → ℕ → OrderMsg → Type 0
IsBetween a b o = (a ≤ o.order_id) × (o.order_id < b)

IsBetween-count_from :
    (a : ℕ) (os : List OrderMsg)
    → ids os ≡ count_from a (length os)
    → All (IsBetween a (a + length os)) os
unfolding count_from
IsBetween-count_from a [] h = tt
IsBetween-count_from a (o ∷ os) h =
    let (first, rest) = cons_inj h in
    let later = IsBetween-count_from (a + 1) os rest in
    (
      (omega (arith, first), omega (arith, first)),
      All-map os (λ o' b. (omega (arith, b.0), omega (arith, b.1))) later,
    )

module _ (fl : Float) (p : Params fl) where
  TakesId-strategy_step :
      (e : Event) (state : List (Bytes × SymbolState fl)) (id : ℕ)
      → id + 1 < 2 ^ 64
      → let r = (strategy_step fl p e.tick state id e.now).0 in TakesId id r.next_order_id r.order
  unfolding strategy_step
  TakesId-strategy_step e state id room =
      elim (entry_step_cases fl p e.tick (entry_of fl state e.tick.symbol) id e.now) [
        | inl (o, ord) ↦
            subst (TakesId id _) (sym ord.is_order)
              (an_order (omega (arith, ord.order_id)) (omega (arith, ord.id_taken)))
        | inr quiet ↦ subst (TakesId id _) (sym quiet.no_order) (no_order quiet.id_kept)
      ]

  length-run_strategy :
      (state : List (Bytes × SymbolState fl)) (id : ℕ) (es : List Event)
      → length (run_strategy fl p state id es).0 ≤ length es
  unfolding run_strategy
  length-run_strategy state id [] = omega arith
  length-run_strategy state id (e ∷ es) =
      let (r, state') = strategy_step fl p e.tick state id e.now in
      omega (
        arith,
        length-run_strategy state' r.next_order_id es,
        length-keep_order r.order (run_strategy fl p state' r.next_order_id es).0,
      )

  counts_up :
      (state : List (Bytes × SymbolState fl)) (id : ℕ) (es : List Event)
      → id + length es < 2 ^ 64
      → CountsUp id (run_strategy fl p state id es).2 (run_strategy fl p state id es).0
  unfolding run_strategy count_from
  counts_up state id [] room = record { ids_are = refl; last_is = omega arith }
  counts_up state id (e ∷ es) room =
      let (r, state') = strategy_step fl p e.tick state id e.now in
      let takes = TakesId-strategy_step e state id (omega arith) in
      CountsUp-keep_order takes
        (counts_up state' r.next_order_id es (omega (arith, TakesId-le takes)))

  -- The ids of the orders count up by one from the one after `id`, and none wraps around, as long
  -- as `id` plus the number of ticks is below 2 ^ 64.
  pub run_strategy-order_id :
      (state : List (Bytes × SymbolState fl)) (id : ℕ) (es : List Event)
      → id + length es < 2 ^ 64
      → let (orders, _, last_id) = run_strategy fl p state id es in
        (map (λ o. o.order_id) orders ≡ count_from (id + 1) (length orders))
        × (last_id ≡ id + length orders)
  run_strategy-order_id state id es room =
      let up = counts_up state id es room in (up.ids_are, up.last_is)

  -- The ids of worker `w` lie in its own block of 2 ^ 32.
  worker_ids :
      (w : ℕ) (es : List Event)
      → w < 2 ^ 32
      → length es < 2 ^ 32
      → All
          (IsBetween (w * 2 ^ 32 + 1) (w * 2 ^ 32 + 2 ^ 32))
          (run_strategy fl p [] (first_order_id w) es).0
  unfolding first_order_id
  worker_ids w es fits few =
      let up = counts_up [] (first_order_id w) es (omega arith) in
      let short = length-run_strategy [] (first_order_id w) es in
      All-map _ (λ o b. (omega (arith, b.0), omega (arith, b.1, short)))
        (IsBetween-count_from (first_order_id w + 1) _ up.ids_are)

  -- Two workers with different numbers below 2 ^ 32 never give the same order id, as long as each
  -- handles fewer than 2 ^ 32 ticks.
  pub run_strategy_disjoint :
      (w w' : ℕ) (es es' : List Event)
      → w ≢ w'
      → w < 2 ^ 32
      → w' < 2 ^ 32
      → length es < 2 ^ 32
      → length es' < 2 ^ 32
      → All
          (λ o.
            All (λ o'. o.order_id ≢ o'.order_id) (run_strategy fl p [] (first_order_id w') es').0)
          (run_strategy fl p [] (first_order_id w) es).0
  unfolding first_order_id
  run_strategy_disjoint w w' es es' ne fits fits' few few' =
      let a = first_order_id w in
      let b = first_order_id w' in
      All-map _
        (λ o mine.
          All-map _ (λ o' theirs same. omega (arith, mine.0, mine.1, theirs.0, theirs.1, same))
            (worker_ids w' es' fits' few'))
        (worker_ids w es fits few)
