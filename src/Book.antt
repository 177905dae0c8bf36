-- ===== src/Book.antt =====
-- src/bid_ask_book/bid_ask_book.h and bid_ask_book.cpp: the class `OrderBook`, over the two containers.
pub mod Compare
pub mod Container
pub mod Ops
pub mod Multiset
pub mod Branches
pub mod Totals
pub mod History
pub mod Best
pub mod Prices
pub mod Update
pub mod Torn
pub mod Undo
pub mod Source
pub mod Abstract
pub mod Sorted
use stakan.Base.{
  ℕ, Bool, false, ◌&&◌, [], Option, none, some, if◌then◌else◌, Result, or_fail, undefined,
}
use stakan.Wire.{Order, Snapshot, MdUpdate, default_order, order_eq}
use stakan.Snapshots.{TmpSnapshotCreator, new_creator, get_snapshot}
use Compare.{bid_before, ask_before}
use Container.{OrderContainer}
use Ops.{Side, PricesInfo}

pub record OrderBook (bid_index : OrderContainer bid_before) (ask_index : OrderContainer ask_before)
    : Type 0 where
  pub bids : Side bid_index
  pub asks : Side ask_index
  pub snapshot_source : TmpSnapshotCreator

module _ {bid_index : OrderContainer bid_before} {ask_index : OrderContainer ask_before} where
  -- `OrderBook()`: its source is `makeTmpSnapshotCreator()`, five static snapshots.
  unfoldable pub new_book : OrderBook bid_index ask_index
  new_book = record {
    bids = Ops.empty_side bid_index;
    asks = Ops.empty_side ask_index;
    snapshot_source = new_creator [] false 5;
  }

  unfoldable pub new_bid : OrderBook bid_index ask_index → Order → OrderBook bid_index ask_index
  new_bid b order = record b { bids = Ops.add bid_index b.bids order }

  unfoldable pub new_ask : OrderBook bid_index ask_index → Order → OrderBook bid_index ask_index
  new_ask b order = record b { asks = Ops.add ask_index b.asks order }

  unfoldable pub cancel_bid : OrderBook bid_index ask_index → ℕ → OrderBook bid_index ask_index
  cancel_bid b order_id = record b { bids = Ops.cancel bid_index b.bids order_id }

  unfoldable pub cancel_ask : OrderBook bid_index ask_index → ℕ → OrderBook bid_index ask_index
  cancel_ask b order_id = record b { asks = Ops.cancel ask_index b.asks order_id }

  unfoldable pub replace_bid :
      OrderBook bid_index ask_index → Order → Order → OrderBook bid_index ask_index
  replace_bid b old_order new_order = record b {
    bids = Ops.replace bid_index b.bids old_order new_order;
  }

  unfoldable pub replace_ask :
      OrderBook bid_index ask_index → Order → Order → OrderBook bid_index ask_index
  replace_ask b old_order new_order = record b {
    asks = Ops.replace ask_index b.asks old_order new_order;
  }

  unfoldable pub best_bid : OrderBook bid_index ask_index → Order
  best_bid b = Ops.best bid_index b.bids

  unfoldable pub best_ask : OrderBook bid_index ask_index → Order
  best_ask b = Ops.best ask_index b.asks

  unfoldable pub get_prices_bids_info : OrderBook bid_index ask_index → ℕ → PricesInfo
  get_prices_bids_info b price = Ops.prices_info bid_index b.bids price

  unfoldable pub get_prices_asks_info : OrderBook bid_index ask_index → ℕ → PricesInfo
  get_prices_asks_info b price = Ops.prices_info ask_index b.asks price

  -- The optional that the source returns is dereferenced with no test.
  unfoldable pub get_top_snapshot :
      OrderBook bid_index ask_index → OrderBook bid_index ask_index × Result Snapshot
  get_top_snapshot b =
      let (source, taken) = get_snapshot b.snapshot_source in
      (record b { snapshot_source = source }, or_fail taken undefined)

  -- The calls that `GenerateMDUpdate` makes, on the books that they find: each takes its own lock, and
  -- other calls may come in between. The two totals are loaded with no lock: they are the numbers that are
  -- found, also between the two updates that a replacement makes.
  unfoldable pub generate_between :
      (at_bid at_ask at_bid_qty at_ask_qty : OrderBook bid_index ask_index)
      → (bid_total ask_total : ℕ) → Option MdUpdate
  generate_between at_bid at_ask at_bid_qty at_ask_qty bid_total ask_total =
      let bid = best_bid at_bid in
      let ask = best_ask at_ask in
      if order_eq bid default_order && order_eq ask default_order
      then none
      else some (record {
        best_bid_price = bid.price;
        best_bid_qty = (get_prices_bids_info at_bid_qty bid.price).quantity;
        best_ask_price = ask.price;
        best_ask_qty = (get_prices_asks_info at_ask_qty ask.price).quantity;
        total_bid_qty = bid_total;
        total_ask_qty = ask_total;
      })

  -- With no call in between.
  unfoldable pub generate_md_update : OrderBook bid_index ask_index → Option MdUpdate
  unfolding generate_between
  generate_md_update b = generate_between b b b b b.bids.total b.asks.total
