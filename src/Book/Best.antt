-- ===== src/Book/Best.antt =====
-- The best orders, and the quantity at a price.
use mathlib.Core.List.{Mem, Pairwise-cons, head?, mem-cons, mem-cons_self, not-mem-nil}
use mathlib.Core.Bool.{Bool-set}
use mathlib.Core.Logic.Or
use stakan.Base.{
  ◌≤◌, ◌<◌, ◌≡◌, ◌≢◌, refl, ◌∙◌, ap, ◌⊎◌, inl, inr, Bool, false, List, [], ◌∷◌, arith, some,
  Bool-cases,
}
use stakan.Wire.{Order, default_order}
use stakan.Book.Compare.{
  bid_before, ask_before, IsStrictOrder, bid_before-IsStrictOrder, ask_before-IsStrictOrder,
}
use stakan.Book.Container.{OrderContainer}
use stakan.Book.Ops.{Side, best}
use stakan.Book.{OrderBook, best_bid, best_ask}

module _ {before : Order → Order → Bool} (index : OrderContainer before) where
  -- On an empty side `best` is the default order; otherwise it is the head of the ordered index.
  pub best_cases :
      (s : Side index)
      → ((index.elements s.orders ≡ []) × (best index s ≡ default_order))
        ⊎ ((rest : List Order) × (index.elements s.orders ≡ best index s ∷ rest))
  unfolding best
  best_cases s = go (index.elements s.orders) refl
    where
      go :
          (os : List Order)
          → index.elements s.orders ≡ os
          → ((index.elements s.orders ≡ []) × (best index s ≡ default_order))
            ⊎ ((rest : List Order) × (index.elements s.orders ≡ best index s ∷ rest))
      go [] e = inl (e, rw ((index.is_empty_iff s.orders).1 e) refl)
      go (o ∷ os) e =
          let first : index.begin s.orders ≡ some o = index.begin_lem s.orders ∙ ap head? e in
          elim (Bool-cases (index.is_empty s.orders)) [
            | inl empty ↦ cc ((index.is_empty_iff s.orders).0 empty)
            | inr full ↦ inr (os, rw (full, first) e)
          ]

  -- No order of the side comes before the best one.
  pub best_first :
      (s : Side index)
      → IsStrictOrder before
      → (o : Order) → Mem o (index.elements s.orders)
      → before o (best index s) ≡ false
  best_first s strict o m = elim (best_cases s) [
    | inl (none_there, _) ↦ absurd (not-mem-nil (rw none_there at m))
    | inr (rest, e) ↦
        Or.elim (Bool-set _ _) (mem-cons.0 (rw e at m))
          (λ same. rw same (strict.irrefl (best index s)))
          ((Pairwise-cons.0 (rw e at (index.elements_ordered s.orders))).0 o)
  ]

  pub best_none : (s : Side index) → index.elements s.orders ≡ [] → best index s ≡ default_order
  best_none s h = elim (best_cases s) [ inl (_, e) ↦ e | inr (rest, e) ↦ cc ]

  pub best_mem :
      (s : Side index) → index.elements s.orders ≢ [] → Mem (best index s) (index.elements s.orders)
  best_mem s h = elim (best_cases s) [
    | inl (e, _) ↦ absurd (h e)
    | inr (rest, e) ↦ rw e mem-cons_self
  ]

bid_bounds :
    (o b : Order)
    → bid_before o b ≡ false
    → (o.price < b.price) ⊎ ((o.price ≡ b.price) × (o.quantity ≤ b.quantity))
unfolding bid_before
bid_bounds o b h = ground arith

ask_bounds :
    (o b : Order)
    → ask_before o b ≡ false
    → (b.price < o.price) ⊎ ((o.price ≡ b.price) × (o.quantity ≤ b.quantity))
unfolding ask_before
ask_bounds o b h = ground arith

module _ {bid_index : OrderContainer bid_before} {ask_index : OrderContainer ask_before}
    (b : OrderBook bid_index ask_index) (o : Order) where
  -- For each bid `o`: `BestBid` is one of the bids, and its price is higher than that of `o`, or it
  -- is the same and its quantity is no smaller.
  pub best_bid_lem :
      Mem o (bid_index.elements b.bids.orders)
      → Mem (best_bid b) (bid_index.elements b.bids.orders)
        × ((o.price < (best_bid b).price)
            ⊎ ((o.price ≡ (best_bid b).price) × (o.quantity ≤ (best_bid b).quantity)))
  unfolding best_bid
  best_bid_lem m = (
    best_mem bid_index b.bids (λ e. not-mem-nil (rw e at m)),
    bid_bounds o _ (best_first bid_index b.bids bid_before-IsStrictOrder o m),
  )

  -- For each ask `o`: `BestAsk` is one of the asks, and its price is lower than that of `o`, or it
  -- is the same and its quantity is no smaller.
  pub best_ask_lem :
      Mem o (ask_index.elements b.asks.orders)
      → Mem (best_ask b) (ask_index.elements b.asks.orders)
        × (((best_ask b).price < o.price)
            ⊎ ((o.price ≡ (best_ask b).price) × (o.quantity ≤ (best_ask b).quantity)))
  unfolding best_ask
  best_ask_lem m = (
    best_mem ask_index b.asks (λ e. not-mem-nil (rw e at m)),
    ask_bounds o _ (best_first ask_index b.asks ask_before-IsStrictOrder o m),
  )
