-- ===== src/Snapshots/Random/Shape.antt =====
-- What the random snapshots look like.
use native.Mathlib.Nat.{ℕ_set}
use native.Mathlib.Bridge.{le_prop}
use mathlib.Core.List.{
  foldr, Mem, Perm, Pairwise, mem-cons, mem-cons_self, mem-cons_of_mem, not-mem-nil,
}
use mathlib.Core.List.Perm
use mathlib.Core.List.Pairwise
use mathlib.Core.Logic.Or
use stakan.Base.{
  ℕ, zero, suc, ◌≤◌, ◌≡◌, refl, sym, ap, ◌∙◌, false, List, [], ◌∷◌, length, arith, ok,
}
use stakan.Wire.{Order, Snapshot, top_n, OrderFits, OrdersFit, SnapshotFits}
use stakan.Wire.Codec.{serialize_snapshot, deserialize_snapshot}
use stakan.Wire.RoundTrip.{deserialize_snapshot-serialize}
use stakan.Snapshots.Random.{
  IsWeakOrder, Sort, Uniform, price_dist, qty_dist, id_dist, higher_price, lower_price,
  random_order, random_sides, random_snapshot, generate_random_snapshots,
}

pub record IsDrawn (o : Order) : Type 0 where
  pub id_low : 1 ≤ o.id
  pub id_high : o.id ≤ 10000
  pub price_low : 50 ≤ o.price
  pub price_high : o.price ≤ 100
  pub quantity_low : 500 ≤ o.quantity
  pub quantity_high : o.quantity ≤ 1000

-- Twenty orders a side within the bounds, the bids from the highest price down, the asks from the lowest
-- price up.
pub record IsDrawnSnapshot (s : Snapshot) : Type 0 where
  pub bids_count : length s.top_bids ≡ top_n
  pub asks_count : length s.top_asks ≡ top_n
  pub bids_drawn : (o : Order) → Mem o s.top_bids → IsDrawn o
  pub asks_drawn : (o : Order) → Mem o s.top_asks → IsDrawn o
  pub bids_down : Pairwise (λ a b. b.price ≤ a.price) s.top_bids
  pub asks_up : Pairwise (λ a b. a.price ≤ b.price) s.top_asks

higher_price-IsWeakOrder : IsWeakOrder higher_price
unfolding higher_price
higher_price-IsWeakOrder = record {
  irrefl = λ a. ground arith;
  trans = λ a b c p q. ground arith;
  ties = λ a b c p q. ground arith;
}

lower_price-IsWeakOrder : IsWeakOrder lower_price
unfolding lower_price
lower_price-IsWeakOrder = record {
  irrefl = λ a. ground arith;
  trans = λ a b c p q. ground arith;
  ties = λ a b c p q. ground arith;
}

IsDrawn-prop : (o : Order) → IsProp (IsDrawn o)
IsDrawn-prop o = hlevel (le_prop)

abbrev AllDrawn : List Order → Type 0
AllDrawn os = (o : Order) → Mem o os → IsDrawn o

AllDrawn-cons : (o : Order) (os : List Order) → IsDrawn o → AllDrawn os → AllDrawn (o ∷ os)
AllDrawn-cons o os d h x m = Or.elim (IsDrawn-prop x) (mem-cons.0 m) (λ e. rw e d) (h x)

AllDrawn-perm : {xs ys : List Order} → Perm xs ys → AllDrawn ys → AllDrawn xs
AllDrawn-perm p h o m = h o ((Perm.mem_iff p).0 m)

count : List Order → ℕ
count os = foldr (λ o n. suc n) 0 os

length-count : (os : List Order) → length os ≡ count os
unfolding count
length-count [] = refl
length-count (o ∷ os) = ap suc (length-count os)

length-perm : {xs ys : List Order} → Perm xs ys → length xs ≡ length ys
unfolding count
length-perm {xs} {ys} p =
    length-count xs
    ∙ Perm.foldr-eq ℕ_set (λ (o : Order) n. suc n) (λ a b x. refl) p 0
    ∙ sym (length-count ys)

module _ {Generator : Type 0} (dists : Uniform Generator) where
  random_order-IsDrawn : (gen : Generator) → IsDrawn (random_order dists gen).0
  unfolding random_order price_dist qty_dist id_dist
  random_order-IsDrawn gen =
      let after_id = (id_dist dists gen).1 in
      let after_price = (price_dist dists after_id).1 in
      record {
        id_low = dists.low 1 10000 gen (omega arith);
        id_high = dists.high 1 10000 gen (omega arith);
        price_low = dists.low 50 100 after_id (omega arith);
        price_high = dists.high 50 100 after_id (omega arith);
        quantity_low = dists.low 500 1000 after_price (omega arith);
        quantity_high = dists.high 500 1000 after_price (omega arith);
      }

  random_sides_lem :
      (rounds : ℕ) (gen : Generator)
      → (let (bids, asks, last) = random_sides dists rounds gen in
          (length bids ≡ rounds) × (length asks ≡ rounds) × AllDrawn bids × AllDrawn asks)
  unfolding random_sides
  random_sides_lem zero gen =
      (refl, refl, (λ o m. absurd (not-mem-nil m)), λ o m. absurd (not-mem-nil m))
  random_sides_lem (suc rounds) gen =
      let gen1 = (random_order dists gen).1 in
      let gen2 = (random_order dists gen1).1 in
      let (bids, asks, bids_drawn, asks_drawn) = random_sides_lem rounds gen2 in
      (
        ap suc bids,
        ap suc asks,
        AllDrawn-cons _ _ (random_order-IsDrawn gen) bids_drawn,
        AllDrawn-cons _ _ (random_order-IsDrawn gen1) asks_drawn,
      )

IsDrawn-OrderFits : (o : Order) → IsDrawn o → OrderFits o
IsDrawn-OrderFits o d = record {
  id_fits = omega arith;
  price_fits = omega arith;
  quantity_fits = omega arith;
}

AllDrawn-OrdersFit : (os : List Order) → AllDrawn os → OrdersFit os
AllDrawn-OrdersFit [] h = tt
AllDrawn-OrdersFit (o ∷ os) h = (
  IsDrawn-OrderFits o (h o mem-cons_self),
  AllDrawn-OrdersFit os (λ x m. h x (mem-cons_of_mem o m)),
)

drawn-SnapshotFits : (s : Snapshot) → IsDrawnSnapshot s → SnapshotFits s
drawn-SnapshotFits s d = record {
  bids_count = d.bids_count;
  asks_count = d.asks_count;
  bids_fit = AllDrawn-OrdersFit s.top_bids d.bids_drawn;
  asks_fit = AllDrawn-OrdersFit s.top_asks d.asks_drawn;
}

not_higher : (a b : Order) → higher_price b a ≡ false → b.price ≤ a.price
unfolding higher_price
not_higher a b h = ground arith

not_lower : (a b : Order) → lower_price b a ≡ false → a.price ≤ b.price
unfolding lower_price
not_lower a b h = ground arith

-- All are such snapshots, and are read back from their bytes.
abbrev pub AllDrawnSnapshots : List Snapshot → Type 0
AllDrawnSnapshots [] = Unit {0}
AllDrawnSnapshots (s ∷ ss) =
    IsDrawnSnapshot s × (deserialize_snapshot (serialize_snapshot s) ≡ ok s) × AllDrawnSnapshots ss

module _ {Generator : Type 0} (dists : Uniform Generator) (sorts : Sort) where
  random_snapshot-IsDrawnSnapshot :
      (gen : Generator) → IsDrawnSnapshot (random_snapshot dists sorts gen).0
  unfolding random_snapshot
  random_snapshot-IsDrawnSnapshot gen =
      let (bids, asks, last) = random_sides dists top_n gen in
      let (bids_count, asks_count, bids_drawn, asks_drawn) = random_sides_lem dists top_n gen in
      record {
        bids_count = length-perm (sorts.sort-perm higher_price bids) ∙ bids_count;
        asks_count = length-perm (sorts.sort-perm lower_price asks) ∙ asks_count;
        bids_drawn = AllDrawn-perm (sorts.sort-perm higher_price bids) bids_drawn;
        asks_drawn = AllDrawn-perm (sorts.sort-perm lower_price asks) asks_drawn;
        bids_down =
            Pairwise.imp (λ a b h. not_higher a b h)
              (sorts.sort-ordered higher_price bids higher_price-IsWeakOrder);
        asks_up =
            Pairwise.imp (λ a b h. not_lower a b h)
              (sorts.sort-ordered lower_price asks lower_price-IsWeakOrder);
      }

  -- As many snapshots are made as were asked for. Each has twenty orders a side, with an id from 1 to 10000, a
  -- price from 50 to 100 and a quantity from 500 to 1000, its bids from the highest price down and its asks
  -- from the lowest price up, and survives encoding and decoding.
  pub generate_random_snapshots_lem :
      (count : ℕ) (gen : Generator)
      → (length (generate_random_snapshots dists sorts count gen) ≡ count)
        × AllDrawnSnapshots (generate_random_snapshots dists sorts count gen)
  unfolding generate_random_snapshots
  generate_random_snapshots_lem zero gen = (refl, tt)
  generate_random_snapshots_lem (suc rounds) gen =
      let (made, drawn) =
        generate_random_snapshots_lem rounds (random_snapshot dists sorts gen).1 in
      let first = random_snapshot-IsDrawnSnapshot gen in
      (ap suc made, (first, deserialize_snapshot-serialize _ (drawn-SnapshotFits _ first), drawn))
