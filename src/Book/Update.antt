-- ===== src/Book/Update.antt =====
-- `GenerateMDUpdate`.
use stakan.Base.{
  ◌%◌, ◌^◌, ◌≡◌, ◌↔◌, refl, ◌⊎◌, Bool, true, false, ◌&&◌, [], arith, none, some, Bool-cases, inl,
  inr,
}
use stakan.Wire.{Order, MdUpdate, default_order, order_eq}
use stakan.Book.Compare.{bid_before, ask_before}
use stakan.Book.Container.{OrderContainer}
use stakan.Book.Ops.{Side, best}
use stakan.Book.Multiset.{quantity_sum}
use stakan.Book.Totals.{IsSound}
use stakan.Book.Best.{best_cases, best_mem, best_none}
use stakan.Book.Prices.{at_price, prices_info_lem}
use stakan.Book.History.{IsSoundBook}
use stakan.Book.{
  OrderBook, generate_between, generate_md_update, best_bid, best_ask, get_prices_bids_info,
  get_prices_asks_info,
}

pub default_price : (o : Order) → order_eq o default_order ≡ true → o.price ≡ 0
unfolding order_eq
default_price o h = ground arith

default_eq : order_eq default_order default_order ≡ true
unfolding order_eq
default_eq = refl

module _ {before : Order → Order → Bool} (index : OrderContainer before) where
  -- On a sound side the best order is the default one exactly when there are no orders.
  best_default :
      (s : Side index)
      → IsSound index s
      → (order_eq (best index s) default_order ≡ true) ↔ (index.elements s.orders ≡ [])
  best_default s h = (
    λ e. elim (best_cases index s) [
      | inl (nothing, _) ↦ nothing
      | inr (rest, full) ↦ absurd (
          (h.all_valid (best index s) (best_mem index s (λ none_there. cc))).has_price
            (default_price (best index s) e))
    ],
    λ e. rw (best_none index s e) default_eq,
  )

module _ {bid_index : OrderContainer bid_before} {ask_index : OrderContainer ask_before}
    (b : OrderBook bid_index ask_index) where
  -- What an update of the book must say, from the orders alone: the best price of each side, the quantity
  -- at that price, and the quantity of the whole side, each sum modulo 2 ^ 64.
  pub record Describes (u : MdUpdate) : Type 0 where
    pub bid_price : u.best_bid_price ≡ (best_bid b).price
    pub bid_qty :
        u.best_bid_qty
        ≡ quantity_sum (at_price (best_bid b).price (bid_index.elements b.bids.orders)) % 2 ^ 64
    pub ask_price : u.best_ask_price ≡ (best_ask b).price
    pub ask_qty :
        u.best_ask_qty
        ≡ quantity_sum (at_price (best_ask b).price (ask_index.elements b.asks.orders)) % 2 ^ 64
    pub bid_total : u.total_bid_qty ≡ quantity_sum (bid_index.elements b.bids.orders) % 2 ^ 64
    pub ask_total : u.total_ask_qty ≡ quantity_sum (ask_index.elements b.asks.orders) % 2 ^ 64

  abbrev is_default : Bool
  is_default = order_eq (best_bid b) default_order && order_eq (best_ask b) default_order

  abbrev update : MdUpdate
  update = record {
    best_bid_price = (best_bid b).price;
    best_bid_qty = (get_prices_bids_info b (best_bid b).price).quantity;
    best_ask_price = (best_ask b).price;
    best_ask_qty = (get_prices_asks_info b (best_ask b).price).quantity;
    total_bid_qty = b.bids.total;
    total_ask_qty = b.asks.total;
  }

  update-Describes : IsSoundBook b → Describes update
  unfolding get_prices_bids_info get_prices_asks_info
  update-Describes h = record {
    bid_price = refl;
    bid_qty = (prices_info_lem bid_index b.bids (best_bid b).price).1;
    ask_price = refl;
    ask_qty = (prices_info_lem ask_index b.asks (best_ask b).price).1;
    bid_total = h.bids_sound.total_is_sum;
    ask_total = h.asks_sound.total_is_sum;
  }

  is_default_iff :
      IsSoundBook b
      → (is_default ≡ true)
        ↔ ((bid_index.elements b.bids.orders ≡ []) × (ask_index.elements b.asks.orders ≡ []))
  unfolding best_bid best_ask
  is_default_iff h =
      let bids = best_default bid_index b.bids h.bids_sound in
      let asks = best_default ask_index b.asks h.asks_sound in
      (λ e. (bids.0 (ground arith), asks.0 (ground arith)), λ e. rw (bids.1 e.0, asks.1 e.1))

  generate_none : is_default ≡ true → generate_md_update b ≡ none
  unfolding generate_md_update generate_between
  generate_none e = rw e

  generate_some : is_default ≡ false → generate_md_update b ≡ some update
  unfolding generate_md_update generate_between
  generate_some e = rw e

  -- On a sound book there is no update if both sides are empty. Otherwise there is one, which says
  -- the best price of each side, the sum of the quantities at it, and the sum of the quantities of
  -- the side, each sum modulo 2 ^ 64.
  pub generate_md_update_lem :
      IsSoundBook b
      → ((bid_index.elements b.bids.orders ≡ [])
          × (ask_index.elements b.asks.orders ≡ [])
          × (generate_md_update b ≡ none))
        ⊎ ((¬ ((bid_index.elements b.bids.orders ≡ []) × (ask_index.elements b.asks.orders ≡ [])))
            × ((u : MdUpdate) × (generate_md_update b ≡ some u) × Describes u))
  generate_md_update_lem h = elim (Bool-cases is_default) [
    | inl empty ↦
        let (bids, asks) = (is_default_iff h).0 empty in inl (bids, asks, generate_none empty)
    | inr full ↦
        inr
          (λ both. cc ((is_default_iff h).1 both), (update, generate_some full, update-Describes h))
  ]
