-- ===== src/Book/Prices.antt =====
-- `GetPricesBidsInfo` and `GetPricesAsksInfo`: the orders at one price.
use mathlib.Core.List.{Perm, filter, append-nil, append_assoc}
use mathlib.Core.List.Perm
use native.Mathlib.Decide.{ℕ_discrete}
use stakan.Base.{
  ℕ, ◌+◌, ◌%◌, ◌^◌, ◌<◌, ◌≡◌, refl, ◌∙◌, Bool, List, [], ◌∷◌, ◌++◌, map, arith, add64, Bool-cases,
  inl, inr,
}
use stakan.Wire.{Order}
use stakan.Book.Container.{OrderContainer}
use stakan.Book.Ops.{Side, PricesInfo, collect, prices_info}
use stakan.Book.Multiset.{quantity_sum, quantity_sum-perm}

abbrev pub ids_of : List Order → List ℕ
ids_of = map (λ o. o.id)

abbrev pub at_price : ℕ → List Order → List Order
at_price price = filter (λ (o : Order). ℕ_discrete o.price price)

collect_ids : (os : List Order) (info : PricesInfo) → (collect os info).ids ≡ info.ids ++ ids_of os
unfolding collect
collect_ids [] info = rw append-nil
collect_ids (o ∷ os) info = collect_ids os _ ∙ append_assoc info.ids (o.id ∷ []) (ids_of os)

collect_quantity :
    (os : List Order) (info : PricesInfo)
    → info.quantity < 2 ^ 64
    → (collect os info).quantity ≡ (info.quantity + quantity_sum os) % 2 ^ 64
unfolding collect add64
collect_quantity [] info h = omega arith
collect_quantity (o ∷ os) info h = collect_quantity os _ (omega arith) ∙ omega arith

module _ {before : Order → Order → Bool} (index : OrderContainer before) where
  -- The ids that are returned for a price are those of the orders at it, each once, and the
  -- quantity is the sum of theirs modulo 2 ^ 64.
  pub prices_info_lem :
      (s : Side index) (price : ℕ)
      → Perm (prices_info index s price).ids (ids_of (at_price price (index.elements s.orders)))
        × ((prices_info index s price).quantity
            ≡ quantity_sum (at_price price (index.elements s.orders)) % 2 ^ 64)
  unfolding prices_info
  prices_info_lem s price = elim (Bool-cases (index.is_empty s.orders)) [
    | inl empty ↦ rw (empty, (index.is_empty_iff s.orders).0 empty) (Perm.nil, refl)
    | inr full ↦
        let p = index.equal_range-perm s.orders price in
        rw full (
          rw collect_ids (Perm.map (λ o. o.id) p),
          collect_quantity _ _ (omega arith) ∙ omega (arith, quantity_sum-perm p),
        )
  ]
