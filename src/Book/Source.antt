-- ===== src/Book/Source.antt =====
-- src/snapshots_broadcaster/order_book_snapshot_source.cpp: `OrderBookSnapshotSource`, which forwards to a book.
use stakan.Base.{
  ℕ, suc, ◌+◌, ◌%◌, ◌^◌, ◌<◌, ◌≡◌, refl, ap, ◌∙◌, arith, List, [], ◌∷◌, Option, some, Result, ok,
  ◌>>=◌, or_fail, undefined, false, get_elem?,
}
use stakan.Wire.{Order, Snapshot}
use stakan.Snapshots.{
  TmpSnapshotCreator, new_creator, get_snapshot, generate_static_snapshots, static_from,
}
use stakan.Snapshots.Cycle.{after_calls, get_snapshot_cycles}
use stakan.Book.Compare.{bid_before, ask_before}
use stakan.Book.Container.{OrderContainer}
use stakan.Book.{
  OrderBook, new_book, new_bid, new_ask, cancel_bid, cancel_ask, replace_bid, replace_ask, best_bid,
  best_ask, get_top_snapshot,
}
use stakan.Book.History.{
  Call, bids, asks, cancels_bid, cancels_ask, replaces_bid, replaces_ask, takes_snapshot, step, run,
}

-- How many of the calls take a snapshot.
abbrev pub snapshots_taken : List Call → ℕ
snapshots_taken [] = 0
snapshots_taken (takes_snapshot ∷ cs) = suc (snapshots_taken cs)
snapshots_taken (bids o ∷ cs) = snapshots_taken cs
snapshots_taken (asks o ∷ cs) = snapshots_taken cs
snapshots_taken (cancels_bid i ∷ cs) = snapshots_taken cs
snapshots_taken (cancels_ask i ∷ cs) = snapshots_taken cs
snapshots_taken (replaces_bid old new ∷ cs) = snapshots_taken cs
snapshots_taken (replaces_ask old new ∷ cs) = snapshots_taken cs

module _ {bid_index : OrderContainer bid_before} {ask_index : OrderContainer ask_before} where
  -- `GetNewBid` and `GetNewAsk`; the pointer to the book may be null.
  unfoldable pub get_new_bid : Option (OrderBook bid_index ask_index) → Result Order
  get_new_bid order_book = or_fail order_book undefined >>= λ b. ok (best_bid b)

  unfoldable pub get_new_ask : Option (OrderBook bid_index ask_index) → Result Order
  get_new_ask order_book = or_fail order_book undefined >>= λ b. ok (best_ask b)

  -- `get_snapshot`, with the book behind it.
  unfoldable pub source_snapshot :
      Option (OrderBook bid_index ask_index)
      → Result (OrderBook bid_index ask_index × Option Snapshot)
  source_snapshot order_book = do
    b ← or_fail order_book undefined
    let (later, taken) = get_top_snapshot b
    s ← taken
    ok (later, some s)

  run-source :
      (b : OrderBook bid_index ask_index) (cs : List Call)
      → (run b cs).snapshot_source ≡ after_calls (snapshots_taken cs) b.snapshot_source
  unfolding run step after_calls new_bid new_ask cancel_bid cancel_ask replace_bid replace_ask
      get_top_snapshot
  run-source b [] = refl
  run-source b (takes_snapshot ∷ cs) = run-source (get_top_snapshot b).0 cs
  run-source b (bids o ∷ cs) = run-source (new_bid b o) cs
  run-source b (asks o ∷ cs) = run-source (new_ask b o) cs
  run-source b (cancels_bid i ∷ cs) = run-source (cancel_bid b i) cs
  run-source b (cancels_ask i ∷ cs) = run-source (cancel_ask b i) cs
  run-source b (replaces_bid old new ∷ cs) = run-source (replace_bid b old new) cs
  run-source b (replaces_ask old new ∷ cs) = run-source (replace_ask b old new) cs

  -- Over a new book, whatever orders were added, replaced and cancelled, the source gives the static test
  -- snapshots in a circle of five: the one at the number of snapshots taken before, below 2 ^ 64.
  pub source_snapshot_ignores_orders :
      (cs : List Call)
      → snapshots_taken cs < 2 ^ 64
      → (later : OrderBook bid_index ask_index) × (s : Snapshot) × (source_snapshot
            (some (run new_book cs))
          ≡ ok (later, some s))
        × (get_elem? (generate_static_snapshots 5) (snapshots_taken cs % 5) ≡ some s)
  unfolding source_snapshot get_top_snapshot new_book new_creator generate_static_snapshots
      static_from
  source_snapshot_ignores_orders cs few =
      let b : OrderBook bid_index ask_index = run new_book cs in
      let start : TmpSnapshotCreator = new_creator [] false 5 in
      let later : OrderBook bid_index ask_index = record b {
        snapshot_source = (get_snapshot b.snapshot_source).0;
      } in
      let (s, gives, stands) =
        get_snapshot_cycles (snapshots_taken cs) start (omega arith) (omega arith) in
      let given =
        ap (λ (c : TmpSnapshotCreator). (get_snapshot c).1) (run-source new_book cs) ∙ gives in
      (
        later,
        s,
        ap (λ o. or_fail o undefined >>= λ s. ok (later, some s)) given,
        ap (get_elem? (generate_static_snapshots 5)) (zero_add (snapshots_taken cs)) ∙ stands,
      )
    where
      zero_add : (n : ℕ) → n % 5 ≡ (0 + n) % 5
      zero_add n = omega arith
