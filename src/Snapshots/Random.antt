-- ===== src/Snapshots/Random.antt =====
-- `generate_random_snapshots`, `GetNewBid` and `GetNewAsk` of `TmpSnapshotCreator`. The generator of random
-- numbers, its distributions and `std::sort` are parameters.
pub mod Shape
use mathlib.Core.List.{Perm, Pairwise}
use stakan.Base.{ℕ, zero, suc, ◌≤◌, ◌≡◌, Bool, true, false, List, [], ◌∷◌, ltb, pos}
use stakan.Wire.{Order, Snapshot, top_n, new_order}

-- A strict weak order, as `std::sort` asks of its comparator.
pub record IsWeakOrder (before : Order → Order → Bool) : Type 0 where
  pub irrefl : (a : Order) → before a a ≡ false
  pub trans : (a b c : Order) → before a b ≡ true → before b c ≡ true → before a c ≡ true
  pub ties : (a b c : Order) → before a b ≡ false → before b c ≡ false → before a c ≡ false

-- `std::sort`: it permutes the elements, and none stands behind one that it should be before.
pub record Sort : Type 0 where
  pub sort : (Order → Order → Bool) → List Order → List Order
  pub sort-perm : (before : Order → Order → Bool) (xs : List Order) → Perm (sort before xs) xs
  pub sort-ordered :
      (before : Order → Order → Bool) (xs : List Order)
      → IsWeakOrder before
      → Pairwise (λ a b. before b a ≡ false) (sort before xs)

-- `std::uniform_int_distribution` between two numbers, over a generator: a number between them and the next
-- state of the generator.
pub record Uniform (Generator : Type 0) : Type 0 where
  pub draw : ℕ → ℕ → Generator → ℕ × Generator
  pub low : (a b : ℕ) (gen : Generator) → a ≤ b → a ≤ (draw a b gen).0
  pub high : (a b : ℕ) (gen : Generator) → a ≤ b → (draw a b gen).0 ≤ b

-- The comparators of the two sorts
unfoldable pub higher_price : Order → Order → Bool
higher_price a b = ltb b.price a.price

unfoldable pub lower_price : Order → Order → Bool
lower_price a b = ltb a.price b.price

module _ {Generator : Type 0} (dists : Uniform Generator) where
  unfoldable pub price_dist : Generator → ℕ × Generator
  price_dist gen = dists.draw 50 100 gen

  unfoldable pub qty_dist : Generator → ℕ × Generator
  qty_dist gen = dists.draw 500 1000 gen

  unfoldable pub id_dist : Generator → ℕ × Generator
  id_dist gen = dists.draw 1 10000 gen

  -- The three assignments to an order
  unfoldable pub random_order : Generator → Order × Generator
  unfolding price_dist qty_dist id_dist
  random_order gen =
      let (id, gen1) = id_dist gen in
      let (price, gen2) = price_dist gen1 in
      let (quantity, gen3) = qty_dist gen2 in
      (record { id = id; price = price; quantity = quantity }, gen3)

  -- The inner loop, for a number of rounds: the bids, the asks and the generator.
  unfoldable pub random_sides : ℕ → Generator → List Order × List Order × Generator
  unfolding random_order
  random_sides zero gen = ([], [], gen)
  random_sides (suc rounds) gen =
      let (bid, gen1) = random_order gen in
      let (ask, gen2) = random_order gen1 in
      let (bids, asks, last) = random_sides rounds gen2 in (bid ∷ bids, ask ∷ asks, last)

module _ {Generator : Type 0} (dists : Uniform Generator) (sorts : Sort) where
  unfoldable pub random_snapshot : Generator → Snapshot × Generator
  unfolding random_sides
  random_snapshot gen =
      let (bids, asks, last) = random_sides dists top_n gen in
      (
        record { top_bids = sorts.sort higher_price bids; top_asks = sorts.sort lower_price asks },
        last,
      )

  -- The outer loop
  unfoldable pub generate_random_snapshots : ℕ → Generator → List Snapshot
  unfolding random_snapshot
  generate_random_snapshots zero gen = []
  generate_random_snapshots (suc rounds) gen =
      let (first, later) = random_snapshot gen in first ∷ generate_random_snapshots rounds later

-- `GetNewBid` and `GetNewAsk`, over `GetRandom`. The language leaves open which argument of the
-- constructor is drawn first; here it is the left one.
unfoldable pub get_new_order :
    {Generator : Type 0} → (Generator → ℕ × Generator) → Generator → Order × Generator
unfolding new_order
get_new_order get_random gen =
    let (number, gen1) = get_random gen in
    let (p, gen2) = get_random gen1 in
    let (qty, gen3) = get_random gen2 in (new_order number p (pos qty), gen3)
