-- ===== src/Wire.antt =====
-- The types of bid_ask_snaphot_interface/bid_ask_interface.h, shared by the server and the clients.
pub mod Memory
pub mod Reads
pub mod Codec
pub mod RoundTrip
pub mod Print
use stakan.Base.{
  ℕ, zero, suc, ◌+◌, ◌≤◌, ◌<◌, ◌≡◌, Bool, true, false, ◌&&◌, List, [], ◌∷◌, arith, ◌==◌, length, ℤ,
  to_u64, IsU64, replicate,
}

-- `topN`
abbrev pub top_n : ℕ
top_n = 20

pub record Order : Type 0 where
  pub id : ℕ
  pub price : ℕ
  pub quantity : ℕ

-- `Order() = default`
abbrev pub default_order : Order
default_order = record { id = 0; price = 0; quantity = 0 }

-- `Order(ID number, Price p, int qty)`: the signed quantity is converted to an unsigned one.
unfoldable pub new_order : ℕ → ℕ → ℤ → Order
new_order number p qty = record { id = number; price = p; quantity = to_u64 qty }

-- `operator==(const Order&, const Order&)`
unfoldable pub order_eq : Order → Order → Bool
order_eq lhs rhs = lhs.id == rhs.id && lhs.price == rhs.price && lhs.quantity == rhs.quantity

-- Two arrays of `topN` orders.
pub record Snapshot : Type 0 where
  pub top_bids : List Order
  pub top_asks : List Order

-- `Snapshot() = default`
unfoldable pub default_snapshot : Snapshot
default_snapshot = record {
  top_bids = replicate top_n default_order;
  top_asks = replicate top_n default_order;
}

pub record MdUpdate : Type 0 where
  pub best_bid_price : ℕ
  pub best_bid_qty : ℕ
  pub best_ask_price : ℕ
  pub best_ask_qty : ℕ
  pub total_bid_qty : ℕ
  pub total_ask_qty : ℕ

-- `enum class MessageType : uint8_t`
pub data MessageType : Type 0 where
  snapshot bid ask md_update : MessageType

-- The number of each enumerator.
unfoldable pub type_byte : MessageType → ℕ
type_byte snapshot = 0
type_byte bid = 1
type_byte ask = 2
type_byte md_update = 3

-- `operator==` of two arrays: element by element.
unfoldable pub orders_eq : List Order → List Order → Bool
orders_eq [] [] = true
orders_eq [] (b ∷ bs) = false
orders_eq (a ∷ as_) [] = false
orders_eq (a ∷ as_) (b ∷ bs) = order_eq a b && orders_eq as_ bs

-- `operator==(const Snapshot&, const Snapshot&)`
unfoldable pub snapshot_eq : Snapshot → Snapshot → Bool
snapshot_eq lhs rhs = orders_eq lhs.top_bids rhs.top_bids && orders_eq lhs.top_asks rhs.top_asks

-- What the C++ types guarantee: each field is a `uint64_t`, and an array has `topN` elements.
pub record OrderFits (o : Order) : Type 0 where
  pub id_fits : IsU64 o.id
  pub price_fits : IsU64 o.price
  pub quantity_fits : IsU64 o.quantity

abbrev pub OrdersFit : List Order → Type 0
OrdersFit [] = Unit {0}
OrdersFit (o ∷ os) = OrderFits o × OrdersFit os

pub record SnapshotFits (s : Snapshot) : Type 0 where
  pub bids_count : length s.top_bids ≡ top_n
  pub asks_count : length s.top_asks ≡ top_n
  pub bids_fit : OrdersFit s.top_bids
  pub asks_fit : OrdersFit s.top_asks

pub record MdUpdateFits (u : MdUpdate) : Type 0 where
  pub bid_price_fits : IsU64 u.best_bid_price
  pub bid_qty_fits : IsU64 u.best_bid_qty
  pub ask_price_fits : IsU64 u.best_ask_price
  pub ask_qty_fits : IsU64 u.best_ask_qty
  pub total_bid_fits : IsU64 u.total_bid_qty
  pub total_ask_fits : IsU64 u.total_ask_qty
