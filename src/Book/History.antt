-- ===== src/Book/History.antt =====
-- Any sequence of calls of the book, in the order in which they take their locks.
use stakan.Base.{ℕ, List, [], ◌∷◌}
use stakan.Wire.{Order}
use stakan.Book.Compare.{bid_before, ask_before}
use stakan.Book.Container.{OrderContainer}
use stakan.Book.Totals.{IsSound, empty_side-IsSound, add-IsSound, cancel-IsSound, replace-IsSound}
use stakan.Book.{
  OrderBook, new_book, new_bid, new_ask, cancel_bid, cancel_ask, replace_bid, replace_ask,
  get_top_snapshot,
}

-- The calls that change the book.
pub data Call : Type 0 where
  bids asks : Order → Call
  cancels_bid cancels_ask : ℕ → Call
  replaces_bid replaces_ask : Order → Order → Call
  takes_snapshot : Call

module _ {bid_index : OrderContainer bid_before} {ask_index : OrderContainer ask_before} where
  unfoldable pub step : OrderBook bid_index ask_index → Call → OrderBook bid_index ask_index
  step b (bids o) = new_bid b o
  step b (asks o) = new_ask b o
  step b (cancels_bid i) = cancel_bid b i
  step b (cancels_ask i) = cancel_ask b i
  step b (replaces_bid old new) = replace_bid b old new
  step b (replaces_ask old new) = replace_ask b old new
  step b takes_snapshot = (get_top_snapshot b).0

  unfoldable pub run : OrderBook bid_index ask_index → List Call → OrderBook bid_index ask_index
  run b [] = b
  run b (c ∷ cs) = run (step b c) cs

  pub record IsSoundBook (b : OrderBook bid_index ask_index) : Type 0 where
    pub bids_sound : IsSound bid_index b.bids
    pub asks_sound : IsSound ask_index b.asks

  -- Every call keeps both sides sound: the total is the sum of the quantities modulo 2 ^ 64, and every
  -- order has a price and a quantity.
  pub step-IsSoundBook :
      (b : OrderBook bid_index ask_index) (c : Call) → IsSoundBook b → IsSoundBook (step b c)
  unfolding step new_bid new_ask cancel_bid cancel_ask replace_bid replace_ask get_top_snapshot
  step-IsSoundBook b (bids o) h = record {
    bids_sound = add-IsSound bid_index b.bids o h.bids_sound;
    asks_sound = h.asks_sound;
  }
  step-IsSoundBook b (asks o) h = record {
    bids_sound = h.bids_sound;
    asks_sound = add-IsSound ask_index b.asks o h.asks_sound;
  }
  step-IsSoundBook b (cancels_bid i) h = record {
    bids_sound = cancel-IsSound bid_index b.bids i h.bids_sound;
    asks_sound = h.asks_sound;
  }
  step-IsSoundBook b (cancels_ask i) h = record {
    bids_sound = h.bids_sound;
    asks_sound = cancel-IsSound ask_index b.asks i h.asks_sound;
  }
  step-IsSoundBook b (replaces_bid old new) h = record {
    bids_sound = replace-IsSound bid_index b.bids old new h.bids_sound;
    asks_sound = h.asks_sound;
  }
  step-IsSoundBook b (replaces_ask old new) h = record {
    bids_sound = h.bids_sound;
    asks_sound = replace-IsSound ask_index b.asks old new h.asks_sound;
  }
  step-IsSoundBook b takes_snapshot h = record {
    bids_sound = h.bids_sound;
    asks_sound = h.asks_sound;
  }

  run_keeps :
      (b : OrderBook bid_index ask_index) (cs : List Call) → IsSoundBook b → IsSoundBook (run b cs)
  unfolding run
  run_keeps b [] h = h
  run_keeps b (c ∷ cs) h = run_keeps (step b c) cs (step-IsSoundBook b c h)

  new_book-IsSoundBook : IsSoundBook (new_book {bid_index = bid_index} {ask_index = ask_index})
  unfolding new_book
  new_book-IsSoundBook = record {
    bids_sound = empty_side-IsSound bid_index;
    asks_sound = empty_side-IsSound ask_index;
  }

module _ (bid_index : OrderContainer bid_before) (ask_index : OrderContainer ask_before) where
  -- After any sequence of calls on a new book both sides are sound: the total is the sum of the
  -- quantities modulo 2 ^ 64, and every order has a price and a quantity.
  pub run-IsSoundBook :
      (cs : List Call)
      → IsSoundBook (run (new_book {bid_index = bid_index} {ask_index = ask_index}) cs)
  run-IsSoundBook cs = run_keeps new_book cs new_book-IsSoundBook
