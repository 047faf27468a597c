-- ===== src/Samples.antt =====
-- Test data that the tests of several modules share.
use dummy_benchmark.Base.{
  ℕ, ◌+◌, ◌/◌, ◌%◌, ◌<◌, ◌^◌, ◌≡◌, refl, none, true, [], ◌∷◌, ◌++◌, inl, arith, replicate,
  ℕ_discrete, All-replicate,
}
use dummy_benchmark.Base.Bytes.{Bytes, update}
use dummy_benchmark.Base.Int.{ℤ, pos, negsuc, pos_part, neg_part}
use dummy_benchmark.Base.Float.{FloatText}
use dummy_benchmark.Text.{Text, codes, to_string, ok}
use dummy_benchmark.Text.Words.{HasNo, HasNo-append, to_string-HasNo}
use dummy_benchmark.Message.{MarketTick, OrderMsg, tick_bytes}
use dummy_benchmark.Message.Layout.{IsTick, IsOrder, length-tick_bytes}
use dummy_benchmark.Ring.{
  SpscRing, RingProducer, RingConsumer, slot_payload, init_in_place, publish,
}
use dummy_benchmark.Ring.Holds.{IsSized, Holds, init-Holds, pad}
use dummy_benchmark.Ring.Calls.{publish-room}
use dummy_benchmark.Startup.{Machine}
use dummy_benchmark.Feedhandler.Forward.{AreBytes}

abbrev pub aapl : Bytes
aapl = b'A' ∷ b'A' ∷ b'P' ∷ b'L' ∷ 0 ∷ 0 ∷ 0 ∷ 0 ∷ []

-- A tick of AAPL with the bid at `px` and the ask one cent above.
abbrev pub tick_at : ℕ → MarketTick
tick_at px = record {
  seq_num = 1;
  exch_ts_ns = 1_000;
  recv_ts_ns = 2_000;
  symbol = aapl;
  bid_px = pos px;
  ask_px = pos (px + 10_000);
  bid_sz = 100;
  ask_sz = 200;
  pad = 0;
}

pub tick_at-IsTick : (px : ℕ) → px < 2 ^ 62 → IsTick (tick_at px)
tick_at-IsTick px h = record {
  seq_fits = omega arith;
  exch_fits = omega arith;
  recv_fits = omega arith;
  symbol_len = refl;
  bid_fits = omega arith;
  ask_fits = omega arith;
  bid_sz_fits = omega arith;
  ask_sz_fits = omega arith;
  pad_fits = omega arith;
}

abbrev pub order_with : ℕ → OrderMsg
order_with id = record {
  order_id = id;
  submit_ts_ns = 5_000;
  symbol = aapl;
  px = negsuc 3;
  qty = 100;
  side = 2;
  pad = 0 ∷ 0 ∷ 0 ∷ [];
}

pub order_with-IsOrder : (id : ℕ) → id < 2 ^ 64 → IsOrder (order_with id)
order_with-IsOrder id h = record {
  id_fits = h;
  submit_fits = omega arith;
  symbol_len = refl;
  px_fits = omega arith;
  qty_fits = omega arith;
  side_fits = omega arith;
  pad_len = refl;
}

-- A ring that was used before, and the same after its initialisation.
abbrev pub used_ring : SpscRing
used_ring = record {
  head = 7;
  tail = 3;
  slots = λ i. record { seq = 9; payload = replicate slot_payload 5 };
}

abbrev pub empty_ring : SpscRing
empty_ring = init_in_place used_ring

used_ring-IsSized : IsSized used_ring.slots
used_ring-IsSized i h = refl

pub empty_ring-Holds : (sent : ℕ → Bytes) → Holds empty_ring sent 0 0
empty_ring-Holds sent = init-Holds used_ring sent used_ring-IsSized

abbrev pub nothing_sent : ℕ → Bytes
nothing_sent k = []

abbrev pub zeros : Bytes
zeros = replicate slot_payload 0

abbrev pub four_zeros : Bytes
four_zeros = replicate 4 0

abbrev pub first_producer : RingProducer
first_producer = record { next_seq = 0 }

abbrev pub first_consumer : RingConsumer
first_consumer = record { next_seq = 0 }

-- A ring with one tick in it.
abbrev pub ring_with_tick : SpscRing
ring_with_tick = (publish empty_ring first_producer (tick_bytes (tick_at 150_000_000) four_zeros)).1

abbrev pub tick_sent : ℕ → Bytes
tick_sent = update nothing_sent 0 (pad (tick_bytes (tick_at 150_000_000) four_zeros))

pub ring_with_tick-Holds : Holds ring_with_tick tick_sent 0 1
ring_with_tick-Holds =
    let (_, holds, _) =
      publish-room (empty_ring-Holds nothing_sent) first_producer
        (tick_bytes (tick_at 150_000_000) four_zeros) refl (omega arith)
        (omega (
          arith,
          length-tick_bytes (tick_at 150_000_000) four_zeros
              (tick_at-IsTick 150_000_000 (omega arith)) refl,
        )) in
    holds

pub tick_sent-first : tick_sent 0 ≡ pad (tick_bytes (tick_at 150_000_000) four_zeros)
unfolding ℕ_discrete
tick_sent-first = refl

-- A tick's size and four bytes more.
abbrev pub packet : Bytes
packet = replicate 68 7

pub packet-AreBytes : AreBytes packet
packet-AreBytes = All-replicate (λ b. b < 256) 68 (omega arith)

-- Millionths as text, with an exponent and with two digits after the point.
abbrev sign_text : ℤ → Text
sign_text (pos n) = []
sign_text (negsuc n) = b'-' ∷ []

abbrev pub fixed_text : FloatText ℤ
fixed_text = record {
  display = λ z. sign_text z ++ (to_string (pos_part z + neg_part z) ++ codes "e-6");
  two_digits = λ z.
      let hundredths = (pos_part z + neg_part z) / 10_000 in
      sign_text z
      ++ (to_string (hundredths / 100)
          ++ b'.' ∷ (b'0' + hundredths / 10 % 10) ∷ (b'0' + hundredths % 10) ∷ []);
}

sign_text-HasNo : (z : ℤ) → HasNo b' ' (sign_text z)
sign_text-HasNo (pos n) = tt
sign_text-HasNo (negsuc n) = omega arith

pub fixed_text-HasNo :
    (z : ℤ) → HasNo b' ' (fixed_text.display z) × HasNo b' ' (fixed_text.two_digits z)
fixed_text-HasNo z = (
  HasNo-append b' ' (sign_text z) _ (sign_text-HasNo z) (
      HasNo-append b' ' (to_string (pos_part z + neg_part z)) _
        (to_string-HasNo b' ' _ (inl (omega arith))) (omega arith)),
  HasNo-append b' ' (sign_text z) _ (sign_text-HasNo z) (
      HasNo-append b' ' (to_string ((pos_part z + neg_part z) / 10_000 / 100)) _
        (to_string-HasNo b' ' _ (inl (omega arith))) (omega arith)),
)

-- A machine on which every call succeeds.
abbrev pub willing : Machine
willing = record {
  files = record { read_to_string = λ path. none; read_dir = λ path. none };
  exists = λ path. true;
  write_tid = λ path. ok tt;
  set_affinity = λ set. ok tt;
  open_bus = λ path. ok tt;
  open_socket = λ address. ok tt;
}
