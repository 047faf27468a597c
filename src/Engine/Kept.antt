-- ===== src/Engine/Kept.antt =====
-- What the publication of orders in crates/trading-engine/src/main.rs leaves as it is.
use dummy_benchmark.Base.{◌≡◌, refl, ◌∙◌, List, [], ◌∷◌, Bool-cases, inl, inr}
use dummy_benchmark.Message.{OrderMsg}
use dummy_benchmark.Engine.{try_publish_order}
use dummy_benchmark.Engine.Dispatch.{Totals, Outlet, offer_order, drain}

-- Publishing orders leaves what is counted of the ticks.
pub record SameTicks (s s' : Totals) : Type 0 where
  pub seen : s'.ticks_seen ≡ s.ticks_seen
  pub dropped : s'.ticks_dropped ≡ s.ticks_dropped
  pub transit : s'.shm_transit ≡ s.shm_transit
  pub end_lat : s'.end_to_end ≡ s.end_to_end

offer_order-SameTicks :
    (s : Totals) (out : Outlet) (o : OrderMsg) → SameTicks s (offer_order s out o).0
unfolding offer_order
offer_order-SameTicks s out o = elim (Bool-cases (try_publish_order out.ring out.producer o).0) [
  | inl sent ↦
      rw (offer_order, sent)
        (record { seen = refl; dropped = refl; transit = refl; end_lat = refl })
  | inr refused ↦
      rw (offer_order, refused)
        (record { seen = refl; dropped = refl; transit = refl; end_lat = refl })
]

pub drain-SameTicks :
    (s : Totals) (out : Outlet) (os : List OrderMsg) → SameTicks s (drain s out os).0
unfolding drain
drain-SameTicks s out [] = record { seen = refl; dropped = refl; transit = refl; end_lat = refl }
drain-SameTicks s out (o ∷ os) =
    let (s', out') = offer_order s out o in
    let a = offer_order-SameTicks s out o in
    let b = drain-SameTicks s' out' os in
    record {
      seen = b.seen ∙ a.seen;
      dropped = b.dropped ∙ a.dropped;
      transit = b.transit ∙ a.transit;
      end_lat = b.end_lat ∙ a.end_lat;
    }
