-- ===== src/Tests/Wires.antt =====
-- The messages of bid_ask_snaphot_interface and the test snapshots.
use stakan.Base.{ℕ, zero, suc, ◌≡◌, refl, [], ◌∷◌, ok, false, arith, replicate}
use stakan.Wire.{
  Order, OrderFits, OrdersFit, Snapshot, SnapshotFits, MdUpdate, MdUpdateFits, default_order,
}
use stakan.Wire.Codec.{serialize_snapshot, deserialize_snapshot}
use stakan.Wire.RoundTrip.{deserialize_snapshot-serialize}
use stakan.Snapshots.{TmpSnapshotCreator}

abbrev one : Order
one = record { id = 7; price = 101; quantity = 12 }

-- Twenty orders a side.
abbrev two_sides : Snapshot
two_sides = record { top_bids = replicate 20 one; top_asks = one ∷ replicate 19 default_order }

one-OrderFits : OrderFits one
one-OrderFits = record {
  id_fits = omega arith;
  price_fits = omega arith;
  quantity_fits = omega arith;
}

none-OrderFits : OrderFits default_order
none-OrderFits = record {
  id_fits = omega arith;
  price_fits = omega arith;
  quantity_fits = omega arith;
}

replicate-OrdersFit : (n : ℕ) (o : Order) → OrderFits o → OrdersFit (replicate n o)
replicate-OrdersFit zero o h = tt
replicate-OrdersFit (suc n) o h = (h, replicate-OrdersFit n o h)

two_sides-SnapshotFits : SnapshotFits two_sides
two_sides-SnapshotFits = record {
  bids_count = refl;
  asks_count = refl;
  bids_fit = replicate-OrdersFit 20 one one-OrderFits;
  asks_fit = (one-OrderFits, replicate-OrdersFit 19 default_order none-OrderFits);
}

deserialize_snapshot-serialize_example :
    deserialize_snapshot (serialize_snapshot two_sides) ≡ ok two_sides
deserialize_snapshot-serialize_example =
    deserialize_snapshot-serialize two_sides two_sides-SnapshotFits

abbrev update : MdUpdate
update = record {
  best_bid_price = 102;
  best_bid_qty = 30;
  best_ask_price = 104;
  best_ask_qty = 12;
  total_bid_qty = 40;
  total_ask_qty = 20;
}

update-MdUpdateFits : MdUpdateFits update
update-MdUpdateFits = record {
  bid_price_fits = omega arith;
  bid_qty_fits = omega arith;
  ask_price_fits = omega arith;
  ask_qty_fits = omega arith;
  total_bid_fits = omega arith;
  total_ask_fits = omega arith;
}

abbrev creator : TmpSnapshotCreator
creator = record { snapshots = two_sides ∷ two_sides ∷ []; current_index = 0; random = false }
