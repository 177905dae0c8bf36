-- ===== src/Book/Ops.antt =====
-- What one side of the book does. bid_ask_book.cpp writes each of these twice, for the bids and for the
-- asks, over two containers that differ in their comparator; here it is written once over either.
-- The lock that each call holds makes it one step. Log lines are left out.
use stakan.Base.{
  ℕ, Bool, true, false, ◌||◌, not, List, [], ◌∷◌, ◌++◌, Option, none, some, ◌==◌, if◌then◌else◌,
  add64, sub64,
}
use stakan.Wire.{Order, default_order}
use stakan.Book.Container.{OrderContainer}

-- `bids_` with `total_bid_quantity_`, or `asks_` with `total_ask_quantity_`.
pub record Side {before : Order → Order → Bool} (index : OrderContainer before) : Type 0 where
  pub orders : index.Container
  pub total : ℕ

pub record PricesInfo : Type 0 where
  pub ids : List ℕ
  pub quantity : ℕ

-- `Validate`
unfoldable pub validate : Order → Bool
validate o = if o.price == 0 || o.quantity == 0 then false else true

-- The loop of `GetContainerPrice` over the range of one price.
unfoldable pub collect : List Order → PricesInfo → PricesInfo
collect [] info = info
collect (o ∷ os) info =
    collect os (record { ids = info.ids ++ (o.id ∷ []); quantity = add64 info.quantity o.quantity })

module _ {before : Order → Order → Bool} (index : OrderContainer before) where
  unfoldable pub empty_side : Side index
  empty_side = record { orders = index.empty; total = 0 }

  -- `NewBid`, `NewAsk`
  unfoldable pub add : Side index → Order → Side index
  add s o =
      let (orders, inserted) = index.insert s.orders o in
      if validate o
      then if inserted then record { orders = orders; total = add64 s.total o.quantity } else s
      else s

  -- `CancelBid`, `CancelAsk`
  unfoldable pub cancel : Side index → ℕ → Side index
  cancel s order_id = elim (index.find s.orders order_id) [
    | some it ↦ record { orders = index.erase s.orders order_id; total = sub64 s.total it.quantity }
    | none ↦ s
  ]

  -- The branch of `replace` that has looked up the old id. The id of an order is never written.
  unfoldable pub replace_at : Side index → Order → Option Order → Side index
  replace_at s new_order none = s
  replace_at s new_order (some it) = record {
    orders =
        index.modify s.orders it.id
          (λ o. record o { price = new_order.price; quantity = new_order.quantity });
    total = add64 (sub64 s.total it.quantity) new_order.quantity;
  }

  -- `ReplaceBid`, `ReplaceAsk`
  unfoldable pub replace : Side index → Order → Order → Side index
  unfolding replace_at
  replace s old_order new_order =
      if new_order.price == 0 || new_order.quantity == 0
      then s
      else if not (old_order.id == new_order.id)
      then s
      else replace_at s new_order (index.find s.orders old_order.id)

  -- `BestBid`, `BestAsk`
  unfoldable pub best : Side index → Order
  best s =
      if index.is_empty s.orders
      then default_order
      else elim (index.begin s.orders) [ some o ↦ o | none ↦ default_order ]

  -- `GetContainerPrice`, `GetPricesBidsInfo`, `GetPricesAsksInfo`
  unfoldable pub prices_info : Side index → ℕ → PricesInfo
  prices_info s price =
      let none_found : PricesInfo = record { ids = []; quantity = 0 } in
      if index.is_empty s.orders
      then none_found
      else collect (index.equal_range s.orders price) none_found
