-- ===== src/Snapshots.antt =====
-- src/snapshots_broadcaster/snapshot_source.cpp: `TmpSnapshotCreator`, which makes test snapshots and
-- hands them out in a circle.
pub mod Prices
pub mod Cycle
pub mod Random
use stakan.Base.{
  ℕ, zero, suc, ◌+◌, ◌*◌, ◌%◌, Bool, List, [], ◌∷◌, Option, none, some, length, get_elem?, ◌==◌,
  if◌then◌else◌, add64, sub64, mul64,
}
use stakan.Wire.{Order, Snapshot, top_n}

pub record TmpSnapshotCreator : Type 0 where
  pub snapshots : List Snapshot
  pub current_index : ℕ
  pub random : Bool

-- The orders that the two loops of `generate_static_snapshots` put at (i, j); `i` and `j` are `size_t`.
unfoldable pub static_bid : ℕ → ℕ → Order
static_bid i j = record {
  id = add64 (mul64 i 100) j;
  price = sub64 (sub64 100 (mul64 i 5)) (mul64 j 1);
  quantity = add64 (add64 1000 (mul64 i 100)) (mul64 j 10);
}

unfoldable pub static_ask : ℕ → ℕ → Order
static_ask i j = record {
  id = add64 (add64 (mul64 i 100) j) 1000;
  price = add64 (add64 101 (mul64 i 5)) (mul64 j 1);
  quantity = add64 (add64 900 (mul64 i 100)) (mul64 j 10);
}

-- `for (j = from; rounds left; ++j)` over one side.
unfoldable pub fill_side : (ℕ → Order) → ℕ → ℕ → List Order
fill_side make zero j = []
fill_side make (suc rounds) j = make j ∷ fill_side make rounds (j + 1)

unfoldable pub static_snapshot : ℕ → Snapshot
static_snapshot i = record {
  top_bids = fill_side (static_bid i) top_n 0;
  top_asks = fill_side (static_ask i) top_n 0;
}

unfoldable pub static_from : ℕ → ℕ → List Snapshot
static_from zero i = []
static_from (suc rounds) i = static_snapshot i ∷ static_from rounds (i + 1)

unfoldable pub generate_static_snapshots : ℕ → List Snapshot
generate_static_snapshots count = static_from count 0

-- The constructor. `drawn` is what `generate_random_snapshots` returns: it rests on random numbers.
unfoldable pub new_creator : List Snapshot → Bool → ℕ → TmpSnapshotCreator
new_creator drawn random count = record {
  snapshots = if random then drawn else generate_static_snapshots count;
  current_index = 0;
  random = random;
}

unfoldable pub get_snapshot : TmpSnapshotCreator → TmpSnapshotCreator × Option Snapshot
get_snapshot c = if length c.snapshots == 0 then (c, none) else (
  record c { current_index = add64 c.current_index 1 },
  get_elem? c.snapshots (c.current_index % length c.snapshots),
)
