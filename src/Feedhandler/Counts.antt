-- ===== src/Feedhandler/Counts.antt =====
-- The counters of crates/feedhandler/src/main.rs.
use dummy_benchmark.Base.{
  ℕ, ◌+◌, ◌^◌, ◌≤◌, ◌<◌, ◌≡◌, some, List, [], ◌∷◌, arith, length, length-take, take, ltb, if_elim,
  Option-cases, add64, inl, inr, Bool-cases,
}
use dummy_benchmark.Base.Bytes.{Bytes}
use dummy_benchmark.Base.Int.{ℤ, pos, negsuc}
use dummy_benchmark.Latency.{record_sample}
use dummy_benchmark.Message.{MarketTick, tick_size, read_tick, tick_bytes}
use dummy_benchmark.Ring.{publish}
use dummy_benchmark.Feedhandler.{
  parse_tick, Counters, TickOutlet, publish_tick, Completion, on_packet, on_result, on_completion,
  on_completions,
}

-- A packet that passes the test of its length is parsed: the last branch of the completion loop is
-- never taken.
pub parse_tick-take :
    (n : ℕ) (buffer : Bytes)
    → tick_size ≤ n
    → n ≤ length buffer
    → parse_tick (take n buffer) ≡ some (read_tick (take tick_size (take n buffer)))
unfolding parse_tick
parse_tick-take n buffer enough fits = ground (arith, length-take n buffer)

-- A negative result is an error, any other the number of bytes of a packet.
abbrev pub has_packet : ℤ → ℕ
has_packet (negsuc _) = 0
has_packet (pos _) = 1

has_packet-le : (res : ℤ) → has_packet res ≤ 1
has_packet-le (negsuc _) = omega arith
has_packet-le (pos _) = omega arith

-- How many completions carry a packet.
abbrev pub packet_count : List Completion → ℕ
packet_count [] = 0
packet_count (c ∷ cs) = has_packet c.res + packet_count cs

pub packet_count-le : (cs : List Completion) → packet_count cs ≤ length cs
packet_count-le [] = omega arith
packet_count-le (c ∷ cs) = omega (arith, packet_count-le cs, has_packet-le c.res)

abbrev pub packets_of : Counters → ℕ
packets_of s = s.recv_count + s.publish_drops + s.bad_packets

-- `k` packets have been counted, each once, and the histogram has the good ones.
pub record Counted (k : ℕ) (s s' : Counters) : Type 0 where
  pub each_once : packets_of s' ≡ packets_of s + k
  pub timed :
      s'.wire_lat.count + (s.recv_count + s.publish_drops)
      ≡ s.wire_lat.count + (s'.recv_count + s'.publish_drops)

bad_packet-Counted :
    (s : Counters)
    → packets_of s + 1 < 2 ^ 64
    → Counted 1 s (record s { bad_packets = add64 s.bad_packets 1 })
bad_packet-Counted s room = record { each_once = omega arith; timed = omega arith }

publish_tick-Counted :
    (s : Counters) (out : TickOutlet) (t : MarketTick) (now : ℕ) (padding : Bytes)
    → packets_of s + 1 < 2 ^ 64
    → s.wire_lat.count + 1 < 2 ^ 64
    → Counted 1 s (publish_tick s out t now padding).0
unfolding publish_tick record_sample
publish_tick-Counted s out t now padding room room' =
    if_elim (Counted 1 s)
      (publish out.ring out.producer (tick_bytes (record t { recv_ts_ns = now }) padding)).0
      (λ _. record { each_once = omega arith; timed = omega arith })
      (λ _. record { each_once = omega arith; timed = omega arith })

on_packet-Counted :
    (s : Counters) (out : TickOutlet) (n : ℕ) (c : Completion)
    → packets_of s + 1 < 2 ^ 64
    → s.wire_lat.count + 1 < 2 ^ 64
    → Counted 1 s (on_packet s out n c).0
unfolding on_packet
on_packet-Counted s out n c room room' = elim (Bool-cases (ltb n tick_size)) [
  | inl short ↦ rw (on_packet, short) (bad_packet-Counted s room)
  | inr long ↦ elim (Option-cases (parse_tick (take n c.buffer))) [
    | inl unparsed ↦ rw (on_packet, long, unparsed) (bad_packet-Counted s room)
    | inr (t, parsed) ↦
        rw (on_packet, long, parsed) (publish_tick-Counted s out t c.now c.padding room room')
  ]
]

on_result-Counted :
    (s : Counters) (out : TickOutlet) (c : Completion) (res : ℤ)
    → packets_of s + 1 < 2 ^ 64
    → s.wire_lat.count + 1 < 2 ^ 64
    → Counted (has_packet res) s (on_result s out c res).0
unfolding on_result
on_result-Counted s out c (negsuc e) room room' = record {
  each_once = omega arith;
  timed = omega arith;
}
on_result-Counted s out c (pos n) room room' = on_packet-Counted s out n c room room'

-- Of a row of completions each one with a packet is counted once, as published, dropped or bad,
-- and the histogram gets one sample for each packet that was published or dropped, when its count
-- is their sum before and no counter runs over.
pub on_completions-Counted :
    (s : Counters) (out : TickOutlet) (cs : List Completion)
    → packets_of s + length cs < 2 ^ 64
    → s.wire_lat.count ≡ s.recv_count + s.publish_drops
    → Counted (packet_count cs) s (on_completions s out cs).0
unfolding on_completions on_completion
on_completions-Counted s out [] room fits = record { each_once = omega arith; timed = omega arith }
on_completions-Counted s out (c ∷ cs) room fits =
    let (s', out') = on_completion s out c in
    let few = has_packet-le c.res in
    let a = on_result-Counted s out c c.res (omega arith) (omega arith) in
    let b =
      on_completions-Counted s' out' cs (omega (arith, a.each_once, few))
        (omega (arith, a.timed, fits)) in
    record {
      each_once = omega (arith, a.each_once, b.each_once);
      timed = omega (arith, a.timed, b.timed);
    }
