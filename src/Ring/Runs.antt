-- ===== src/Ring/Runs.antt =====
-- A row of whole calls of crates/shmbus/src/ring.rs is one of the interleavings of its two ends.
use dummy_benchmark.Base.{
  ℕ, suc, ◌+◌, ◌%◌, ◌≤◌, ◌<◌, ◌≡◌, refl, ap, ap₂, subst, ◌∙◌, Bool, true, false, none, some, List,
  [], ◌∷◌, ◌⊎◌, inl, inr, arith, length,
}
use dummy_benchmark.Base.Bytes.{Bytes}
use dummy_benchmark.Ring.{SpscRing, ring_capacity, slot_payload, is_full, publish, consume}
use dummy_benchmark.Ring.Holds.{IsSized, window}
use dummy_benchmark.Ring.Fifo.{Op, put, get, Reply, published, consumed}
use dummy_benchmark.Ring.Refine.{run, Fits, run-put, run-get}
use dummy_benchmark.Ring.Steps.{
  System, Publishing, Consuming, Step, find_full, find_room, write_part, write_end, store_seq,
  store_head, find_empty, find_message, copy_byte, store_tail, Reach, here, next, get_slot,
  sees_message,
}
use dummy_benchmark.Ring.Threads.{start, get_slot_at}
use dummy_benchmark.Ring.Interleaved.{Reach-Inv}
use dummy_benchmark.Ring.Sequential.{
  SameConsumer, SameProducer, Reach-trans, publish-Reach, consume-Reach,
}

-- The calls of `try_publish` that found room.
abbrev pub accepted : List Reply → ℕ
accepted [] = 0
accepted (published true ∷ rs) = suc (accepted rs)
accepted (published false ∷ rs) = accepted rs
accepted (consumed x ∷ rs) = accepted rs

-- The messages that `try_consume` handed out.
abbrev pub delivered : List Reply → List Bytes
delivered [] = []
delivered (published b ∷ rs) = delivered rs
delivered (consumed none ∷ rs) = delivered rs
delivered (consumed (some x) ∷ rs) = x ∷ delivered rs

-- What was handed out stays so.
Step-got :
    {s t : System}
    → Step s t
    → (s.consumed ≤ t.consumed) × ((k : ℕ) → k < s.consumed → t.got k ≡ s.got k)
Step-got (find_full bytes at full) = (omega arith, λ k h. refl)
Step-got (find_room bytes at fits room) = (omega arith, λ k h. refl)
Step-got (write_part bytes x at sized) = (omega arith, λ k h. refl)
Step-got (write_end bytes at) = (omega arith, λ k h. refl)
Step-got (store_seq bytes at) = (omega arith, λ k h. refl)
Step-got (store_head at) = (omega arith, λ k h. refl)
Step-got (find_empty at empty) = (omega arith, λ k h. refl)
Step-got (find_message at sees) = (omega arith, λ k h. refl)
Step-got (copy_byte done at more) = (omega arith, λ k h. refl)
Step-got (store_tail done at sized) = (omega arith, λ k h. ground arith)

Reach-got :
    {s t : System}
    → Reach s t
    → (s.consumed ≤ t.consumed) × ((k : ℕ) → k < s.consumed → t.got k ≡ s.got k)
Reach-got here = (omega arith, λ k h. refl)
Reach-got (next r st) =
    let (le, same) = Reach-got r in
    let (le', same') = Step-got st in (omega arith, λ k h. same' k (omega arith) ∙ same k h)

bool_cases : (b : Bool) → (b ≡ true) ⊎ (b ≡ false)
bool_cases true = inl refl
bool_cases false = inr refl

-- After the calls `ops` with the replies `rs`, which `t` has recorded.
pub record Ran (s : System) (buf : Bytes) (ops : List Op) (t : System) (rs : List Reply)
    : Type 0 where
  pub reach : Reach s t
  pub replied : run s.ring s.prod s.cons buf ops ≡ some rs
  pub put_idle : t.producer ≡ Publishing.idle
  pub get_idle : t.consumer ≡ Consuming.idle
  pub put_count : t.published ≡ s.published + accepted rs
  pub get_count : t.consumed ≡ s.consumed + length (delivered rs)
  pub got_are : window t.got s.consumed (length (delivered rs)) ≡ delivered rs

module _ {s : System} {buf : Bytes} {ops : List Op} where
  Ran-full :
      (x : Bytes) {t : System} {rs : List Reply}
      → length x ≤ slot_payload
      → is_full s.prod.next_seq s.ring.tail ≡ true
      → Ran s buf ops t rs
      → Ran s buf (put x ∷ ops) t (published false ∷ rs)
  unfolding publish
  Ran-full x fits full h = record {
    reach = h.reach;
    replied = rw (run-put s.ring s.prod s.cons buf ops x fits, full, h.replied) refl;
    put_idle = h.put_idle;
    get_idle = h.get_idle;
    put_count = h.put_count;
    get_count = h.get_count;
    got_are = h.got_are;
  }

  Ran-empty :
      {t : System} {rs : List Reply}
      → length buf ≡ slot_payload
      → sees_message s ≡ false
      → Ran s buf ops t rs
      → Ran s buf (get ∷ ops) t (consumed none ∷ rs)
  unfolding consume
  Ran-empty len empty h = record {
    reach = h.reach;
    replied = rw (run-get s.ring s.prod s.cons buf ops len, empty, h.replied) refl;
    put_idle = h.put_idle;
    get_idle = h.get_idle;
    put_count = h.put_count;
    get_count = h.get_count;
    got_are = h.got_are;
  }

  Ran-room :
      (x : Bytes) {u t : System} {rs : List Reply}
      → length x ≤ slot_payload
      → Reach s u
      → publish s.ring s.prod x ≡ (true, u.ring, u.prod)
      → u.published ≡ s.published + 1
      → SameConsumer s u
      → Ran u buf ops t rs
      → Ran s buf (put x ∷ ops) t (published true ∷ rs)
  Ran-room x {u} {t} {rs} fits r e count same h = record {
    reach = Reach-trans r h.reach;
    replied = rw (run-put s.ring s.prod s.cons buf ops x fits, e, ← same.cons_same, h.replied) refl;
    put_idle = h.put_idle;
    get_idle = h.get_idle;
    put_count = omega (arith, h.put_count, count);
    get_count = h.get_count ∙ ap (λ n. n + length (delivered rs)) same.consumed_same;
    got_are =
        subst (λ c. window t.got c (length (delivered rs)) ≡ delivered rs) same.consumed_same
          h.got_are;
  }

  Ran-sees :
      {u t : System} {rs : List Reply}
      → length buf ≡ slot_payload
      → Reach s u
      → consume s.ring s.cons buf ≡ (some slot_payload, u.got s.consumed, u.ring, u.cons)
      → u.consumed ≡ s.consumed + 1
      → SameProducer s u
      → Ran u (u.got s.consumed) ops t rs
      → Ran s buf (get ∷ ops) t (consumed (some (u.got s.consumed)) ∷ rs)
  Ran-sees {u} {t} {rs} len r e count same h = record {
    reach = Reach-trans r h.reach;
    replied = rw (run-get s.ring s.prod s.cons buf ops len, e, ← same.prod_same, h.replied) refl;
    put_idle = h.put_idle;
    get_idle = h.get_idle;
    put_count = h.put_count ∙ ap (λ n. n + accepted rs) same.published_same;
    get_count = omega (arith, h.get_count, count);
    got_are =
        ap₂ ◌∷◌ ((Reach-got h.reach).1 s.consumed (omega (arith, count)))
          (subst (λ c. window t.got c (length (delivered rs)) ≡ delivered rs) count h.got_are);
  }

module _ (ring : SpscRing) (sized : IsSized ring.slots) where
  payload_sized :
      {s : System}
      → Reach (start ring) s
      → length (s.ring.slots (get_slot s)).payload ≡ slot_payload
  payload_sized {s} r =
      let v = Reach-Inv ring sized r in
      rw (get_slot_at v) (v.stores.sized (s.consumed % ring_capacity) (omega arith))

  -- A row of whole calls of the two ends in any order, from a state that was reached and in which no
  -- call is under way, is one of the interleavings of their accesses: it ends in a reachable state,
  -- which has recorded as published and as handed out just what the replies say, in their order. Each
  -- payload is at most the payload of a slot, and the buffer is that size.
  pub run-Reach :
      (ops : List Op) (s : System) (buf : Bytes)
      → Reach (start ring) s
      → s.producer ≡ Publishing.idle
      → s.consumer ≡ Consuming.idle
      → length buf ≡ slot_payload
      → Fits ops
      → (t : System) × (rs : List Reply) × Ran s buf ops t rs
  unfolding run
  run-Reach [] s buf r at_put at_get len fits = (
    s,
    [],
    record {
      reach = here;
      replied = refl;
      put_idle = at_put;
      get_idle = at_get;
      put_count = omega arith;
      get_count = omega arith;
      got_are = refl;
    },
  )
  run-Reach (put x ∷ ops) s buf r at_put at_get len fits =
      elim (bool_cases (is_full s.prod.next_seq s.ring.tail)) [
        | inl full ↦
            let (t, rs, h) = run-Reach ops s buf r at_put at_get len fits.1 in
            (t, published false ∷ rs, Ran-full x fits.0 full h)
        | inr room ↦
            let (u, ru, e, idle, count, same) = publish-Reach s x at_put fits.0 room in
            let (t, rs, h) =
              run-Reach ops u buf (Reach-trans r ru) idle (same.consumer_same ∙ at_get) len
                fits.1 in
            (t, published true ∷ rs, Ran-room x fits.0 ru e count same h)
      ]
  run-Reach (get ∷ ops) s buf r at_put at_get len fits = elim (bool_cases (sees_message s)) [
    | inl sees ↦
        let (u, ru, e, idle, count, full, same) =
          consume-Reach s buf at_get sees (payload_sized r) len in
        let (t, rs, h) =
          run-Reach ops u (u.got s.consumed) (Reach-trans r ru) (same.producer_same ∙ at_put) idle
            full fits in
        (t, consumed (some (u.got s.consumed)) ∷ rs, Ran-sees len ru e count same h)
    | inr empty ↦
        let (t, rs, h) = run-Reach ops s buf r at_put at_get len fits in
        (t, consumed none ∷ rs, Ran-empty len empty h)
  ]
