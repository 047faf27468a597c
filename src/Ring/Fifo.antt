-- ===== src/Ring/Fifo.antt =====
-- What a ring promises its two ends: a first-in first-out queue of payloads with a bound.
use dummy_benchmark.Base.{
  Bool, true, false, Option, none, some, List, [], ◌∷◌, ◌++◌, length, leb, if◌then◌else◌,
}
use dummy_benchmark.Base.Bytes.{Bytes}
use dummy_benchmark.Ring.{ring_capacity}
use dummy_benchmark.Ring.Holds.{pad}

pub data Op : Type 0 where
  put : Bytes → Op
  get : Op

-- What a call lets its caller see.
pub data Reply : Type 0 where
  published : Bool → Reply
  consumed : Option Bytes → Reply

unfoldable pub push : List Bytes → Bytes → Bool × List Bytes
push q x = if leb ring_capacity (length q) then (false, q) else (true, q ++ pad x ∷ [])

unfoldable pub pop : List Bytes → Option Bytes × List Bytes
pop [] = (none, [])
pop (x ∷ q) = (some x, q)

unfoldable pub run : List Bytes → List Op → List Reply
run q [] = []
run q (put x ∷ ops) = let (done, q') = push q x in published done ∷ run q' ops
run q (get ∷ ops) = let (x, q') = pop q in consumed x ∷ run q' ops
