-- ===== src/Book/Abstract/Books.antt =====
-- The book as a whole: a run of calls on it is the run of the same calls on two bags.

use stakan.Base.{◌≡◌, ◌%◌, ◌^◌, refl, ap, ◌∙◌, List, [], ◌∷◌}
use stakan.Book.Compare.{bid_before, ask_before}
use stakan.Book.Container.{OrderContainer}
use stakan.Book.History.{Call, step, run, run-IsSoundBook}
use stakan.Book.{
  OrderBook, new_book, new_bid, new_ask, cancel_bid, cancel_ask, replace_bid, replace_ask,
  get_top_snapshot,
}
use stakan.Book.Ops.{empty_side}
use stakan.Book.Abstract.{bag}
use stakan.Book.Abstract.Bags.{BagBook, spec_step, spec_run, no_orders, quantity_of}
use stakan.Book.Abstract.Sides.{bag_of, add_refines, cancel_refines, replace_refines}

module _ {bid_index : OrderContainer bid_before} {ask_index : OrderContainer ask_before} where
  abbrev pub bags_of : OrderBook bid_index ask_index → BagBook
  bags_of b = record { bid_bag = bag_of bid_index b.bids; ask_bag = bag_of ask_index b.asks }

  step_refines :
      (b : OrderBook bid_index ask_index) (c : Call) → bags_of (step b c) ≡ spec_step (bags_of b) c
  unfolding step new_bid new_ask cancel_bid cancel_ask replace_bid replace_ask get_top_snapshot
  step_refines b (Call.bids o) =
      λ i. record { bid_bag = add_refines bid_index b.bids o i; ask_bag = bag_of ask_index b.asks }
  step_refines b (Call.asks o) =
      λ i. record { bid_bag = bag_of bid_index b.bids; ask_bag = add_refines ask_index b.asks o i }
  step_refines b (Call.cancels_bid k) = λ i. record {
    bid_bag = cancel_refines bid_index b.bids k i;
    ask_bag = bag_of ask_index b.asks;
  }
  step_refines b (Call.cancels_ask k) = λ i. record {
    bid_bag = bag_of bid_index b.bids;
    ask_bag = cancel_refines ask_index b.asks k i;
  }
  step_refines b (Call.replaces_bid old new) = λ i. record {
    bid_bag = replace_refines bid_index b.bids old new i;
    ask_bag = bag_of ask_index b.asks;
  }
  step_refines b (Call.replaces_ask old new) = λ i. record {
    bid_bag = bag_of bid_index b.bids;
    ask_bag = replace_refines ask_index b.asks old new i;
  }
  step_refines b Call.takes_snapshot = refl

  run_from :
      (b : OrderBook bid_index ask_index) (cs : List Call)
      → bags_of (run b cs) ≡ spec_run (bags_of b) cs
  unfolding run
  run_from b [] = refl
  run_from b (c ∷ cs) = run_from (step b c) cs ∙ ap (λ x. spec_run x cs) (step_refines b c)

module _ (bid_index : OrderContainer bid_before) (ask_index : OrderContainer ask_before) where
  new_book-no_orders :
      bags_of (new_book {bid_index = bid_index} {ask_index = ask_index}) ≡ no_orders
  unfolding new_book empty_side
  new_book-no_orders = λ i. record {
    bid_bag = bag (bid_index.elements-empty i);
    ask_bag = bag (ask_index.elements-empty i);
  }

  -- Run any sequence of calls on a new book, and the same sequence on two bags of orders that start
  -- empty. The orders of the book, up to their order, are the two bags, and each running total is the
  -- quantity of its bag modulo 2 ^ 64.
  pub run_refines :
      (cs : List Call)
      → let b : OrderBook bid_index ask_index = run new_book cs in
        let spec : BagBook = spec_run no_orders cs in
        (bags_of b ≡ spec)
        × (b.bids.total ≡ quantity_of spec.bid_bag % 2 ^ 64)
        × (b.asks.total ≡ quantity_of spec.ask_bag % 2 ^ 64)
  run_refines cs =
      let start : OrderBook bid_index ask_index = new_book in
      let same : bags_of (run start cs) ≡ spec_run no_orders cs =
        run_from start cs ∙ ap (λ x. spec_run x cs) new_book-no_orders in
      let sound = run-IsSoundBook bid_index ask_index cs in
      (
        same,
        sound.bids_sound.total_is_sum ∙ ap (λ x. quantity_of x.bid_bag % 2 ^ 64) same,
        sound.asks_sound.total_is_sum ∙ ap (λ x. quantity_of x.ask_bag % 2 ^ 64) same,
      )
