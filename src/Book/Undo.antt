-- ===== src/Book/Undo.antt =====
-- Calls that take one another back, and what the snapshot of the book is made from.
use mathlib.Core.Path.{subst}
use mathlib.Core.List.{Mem, Nodup-cons, Perm, mem-cons, mem-cons_self, mem-map_of_mem}
use mathlib.Core.List.Perm
use mathlib.Core.Logic.Or
use stakan.Base.{
  ◌≡◌, ◌≢◌, refl, ◌∙◌, ap, inl, inr, Bool, List, ◌∷◌, map, Option, none, some, IsU64, sub64,
  sub64-add64, Option-cases,
}
use stakan.Wire.{Order}
use stakan.Book.Compare.{bid_before, ask_before}
use stakan.Book.Container.{OrderContainer}
use stakan.Book.Ops.{Side, add, cancel}
use stakan.Book.Branches.{add_branches, cancel_branches}
use stakan.Book.Multiset.{IsValid}
use stakan.Book.History.{Call, takes_snapshot, step}
use stakan.Book.{
  OrderBook, get_top_snapshot, new_bid, new_ask, cancel_bid, cancel_ask, replace_bid, replace_ask,
}

Order-set : IsSet Order
Order-set = hlevel

some-set : IsSet (Option Order)
some-set = hlevel

module _ {before : Order → Order → Bool} (index : OrderContainer before) where
  -- The order that heads the contents, up to their order, is the one that its id finds.
  pub find_head :
      (c : index.Container) (o : Order) (rest : List Order)
      → Perm (index.elements c) (o ∷ rest)
      → index.find c o.id ≡ some o
  find_head c o rest p = elim (Option-cases (index.find c o.id)) [
    | inl e ↦ absurd (index.find_none c o.id e o ((Perm.mem_iff p).1 mem-cons_self) refl)
    | inr (y, e) ↦
        let (same, m) = index.find_some c o.id y e in
        let unique =
          Nodup-cons.0 (Perm.nodup (Perm.map (λ (x : Order). x.id) p) (index.ids_unique c)) in
        e
        ∙ Or.elim (some-set _ _) (mem-cons.0 ((Perm.mem_iff p).0 m)) (λ q. ap some q)
            (λ later. absurd (
              unique.0 (
                subst (λ k. Mem k (map (λ (x : Order). x.id) rest)) same
                  (mem-map_of_mem (λ (x : Order). x.id) later))))
  ]

  -- On a side whose total fits in 64 bits: cancelling an order that was just added, with a price, a
  -- quantity and a free id, gives back the total and, up to their order, the orders.
  pub cancel-add :
      (s : Side index) (o : Order)
      → IsValid o
      → index.find s.orders o.id ≡ none
      → IsU64 s.total
      → ((cancel index (add index s o) o.id).total ≡ s.total)
        × Perm (index.elements (cancel index (add index s o) o.id).orders) (index.elements s.orders)
  cancel-add s o v free fits = elim (add_branches index s o) [
    | inr (inl bad, _) ↦ absurd (bad v)
    | inr (inr (x, taken), _) ↦ cc
    | inl (_, _, total, p) ↦ elim (cancel_branches index (add index s o) o.id) [
      | inl (lost, _) ↦ cc (find_head (add index s o).orders o _ p)
      | inr (y, e, total', q) ↦
          let same : y ≡ o = cc (find_head (add index s o).orders o _ p) in
          (
            total' ∙ (λ i. sub64 (total i) (same i).quantity) ∙ sub64-add64 s.total o.quantity fits,
            Perm.cons_inv (
                Perm.trans
                  (Perm.symm (
                    subst
                      (λ z.
                        Perm (index.elements (add index s o).orders)
                          (z ∷ index.elements (cancel index (add index s o) o.id).orders))
                      same q))
                  p),
          )
    ]
  ]

module _ {bid_index : OrderContainer bid_before} {ask_index : OrderContainer ask_before} where
  -- The snapshot of the book comes from the creator of test snapshots: no call that changes the orders
  -- changes the next one.
  pub get_top_snapshot_ignores_orders :
      (b : OrderBook bid_index ask_index) (c : Call)
      → c ≢ takes_snapshot
      → (get_top_snapshot (step b c)).1 ≡ (get_top_snapshot b).1
  unfolding step get_top_snapshot new_bid new_ask cancel_bid cancel_ask replace_bid replace_ask
  get_top_snapshot_ignores_orders b (Call.bids o) h = refl
  get_top_snapshot_ignores_orders b (Call.asks o) h = refl
  get_top_snapshot_ignores_orders b (Call.cancels_bid i) h = refl
  get_top_snapshot_ignores_orders b (Call.cancels_ask i) h = refl
  get_top_snapshot_ignores_orders b (Call.replaces_bid old new) h = refl
  get_top_snapshot_ignores_orders b (Call.replaces_ask old new) h = refl
  get_top_snapshot_ignores_orders b takes_snapshot h = absurd (h refl)
