-- ===== src/Book/Torn.antt =====
-- An update that is made while another thread changes the book.
use mathlib.Core.Path.{subst}
use mathlib.Core.List.{Perm, mem-cons_self}
use mathlib.Core.List.Perm
use stakan.Base.{
  ℕ, ℕ_discrete, ◌%◌, ◌^◌, ◌≡◌, ◌≢◌, refl, ap, ◌∙◌, false, ◌&&◌, List, [], ◌∷◌, some, inl, inr,
  if_false, Bool-cases,
}
use stakan.Wire.{Order, MdUpdate, default_order, order_eq}
use stakan.Book.Compare.{bid_before, ask_before}
use stakan.Book.Container.{OrderContainer}
use stakan.Book.Ops.{cancel}
use stakan.Book.Branches.{cancel_branches}
use stakan.Book.Multiset.{quantity_sum, quantity_sum-perm}
use stakan.Book.Prices.{at_price, prices_info_lem}
use stakan.Book.Undo.{find_head}
use stakan.Book.Update.{default_price}
use stakan.Book.History.{IsSoundBook}
use stakan.Book.{OrderBook, best_bid, best_ask, cancel_bid, generate_between, get_prices_bids_info}

module _ {bid_index : OrderContainer bid_before} {ask_index : OrderContainer ask_before} where
  -- Cancelling the order that heads the bids, up to their order, leaves the rest.
  cancel_head :
      (b : OrderBook bid_index ask_index) (o : Order) (rest : List Order)
      → Perm (bid_index.elements b.bids.orders) (o ∷ rest)
      → Perm (bid_index.elements (cancel_bid b o.id).bids.orders) rest
  unfolding cancel_bid
  cancel_head b o rest p = elim (cancel_branches bid_index b.bids o.id) [
    | inl (lost, same) ↦ cc (find_head bid_index b.bids.orders o rest p, lost)
    | inr (y, e, total, q) ↦
        let same : y ≡ o = cc (find_head bid_index b.bids.orders o rest p, e) in
        Perm.cons_inv (
          Perm.trans
            (Perm.symm (
              subst
                (λ z.
                  Perm (bid_index.elements b.bids.orders)
                    (z ∷ bid_index.elements (cancel bid_index b.bids o.id).orders))
                same q))
            p)
  ]

  none_left :
      (b : OrderBook bid_index ask_index) (price : ℕ) (rest : List Order)
      → Perm (bid_index.elements b.bids.orders) rest
      → at_price price rest ≡ []
      → (get_prices_bids_info b price).quantity ≡ 0
  unfolding get_prices_bids_info
  none_left b price rest p e =
      (prices_info_lem bid_index b.bids price).1
      ∙ ap (λ n. n % 2 ^ 64)
          (quantity_sum-perm (Perm.filter (λ (o : Order). ℕ_discrete o.price price) p)
            ∙ ap quantity_sum e)

  -- When the best bid is the only one at its price, and it is cancelled after `BestBid` and `BestAsk`
  -- have returned, the update has the price of an order that is gone, and the quantity 0 at it.
  pub cancel_tears_update :
      (b : OrderBook bid_index ask_index) (rest : List Order)
      → IsSoundBook b
      → Perm (bid_index.elements b.bids.orders) (best_bid b ∷ rest)
      → at_price (best_bid b).price rest ≡ []
      → let c = cancel_bid b (best_bid b).id in
        (u : MdUpdate) × (generate_between b b c c c.bids.total c.asks.total ≡ some u)
        × (u.best_bid_price ≡ (best_bid b).price)
        × (u.best_bid_price ≢ 0)
        × (u.best_bid_qty ≡ 0)
        × (u.total_bid_qty ≡ c.bids.total)
  unfolding generate_between
  cancel_tears_update b rest h p e =
      let there = (Perm.mem_iff p).1 mem-cons_self in
      let priced = (h.bids_sound.all_valid (best_bid b) there).has_price in
      (
        _,
        if_false _ _ (not_both (best_bid b) (best_ask b) priced),
        refl,
        priced,
        none_left (cancel_bid b (best_bid b).id) (best_bid b).price rest
            (cancel_head b (best_bid b) rest p) e,
        refl,
      )
    where
      not_both :
          (o a : Order)
          → o.price ≢ 0
          → (order_eq o default_order && order_eq a default_order) ≡ false
      not_both o a ne = elim (Bool-cases (order_eq o default_order)) [
        | inl same ↦ absurd (ne (default_price o same))
        | inr other ↦ ap (λ x. x && order_eq a default_order) other
      ]
