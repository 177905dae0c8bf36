-- ===== src/Clients/Orders/Duplicate.antt =====
-- An order whose id the side already has: the map keeps one entry, the list two nodes.
use stakan.Base.{
  ℕ, suc, ◌+◌, ◌≤◌, ◌≡◌, ◌≢◌, refl, ◌∙◌, ap, List, [], ◌∷◌, ◌++◌, none, some, ok, err, out_of_range,
  arith, inl, inr, Option-cases, ℕ_discrete, ==_of_eq, ==_of_ne,
}
use stakan.Base.Map.{Map, lookup, insert, erase, lookup-insert, lookup-erase}
use stakan.Wire.{Order}
use stakan.Clients.Orders.{
  Node, OrderEntry, OrderSide, erase_node, collect_orders, add_order_to_side, remove_by_id,
  remove_from, remove_order_from_side, get_orders,
}
use stakan.Clients.Orders.Represents.{Absent, Aligned, Rising, Represents}

-- A node whose id the map does not have makes the getter's `at` throw.
collect_orders_missing :
    (m m' : Map OrderEntry) (ns : List Node) (os : List Order) (i : ℕ)
    → Aligned m ns os
    → ¬ Absent i os
    → lookup i m' ≡ none
    → collect_orders m' ns ≡ err out_of_range
unfolding collect_orders
collect_orders_missing m m' [] [] i a there gone = absurd (there tt)
collect_orders_missing m m' [] (o ∷ os) i a there gone = absurd a
collect_orders_missing m m' (n ∷ ns) [] i a there gone = absurd a
collect_orders_missing m m' (n ∷ ns) (o ∷ os) i a there gone = elim (ℕ_discrete n.id i) [
  | yes here ↦ rw (ap (λ k. lookup k m') here ∙ gone)
  | no other ↦ elim (Option-cases (lookup n.id m')) [
    | inl e ↦ rw e
    | inr (x, e) ↦
        rw
          (e, collect_orders_missing m m' ns os i a.2 (λ b. there ((λ p. other (a.0 ∙ p)), b)) gone)
  ]
]

erase_node_last :
    (lo hi i : ℕ) (ns : List Node)
    → Rising lo hi ns
    → erase_node hi (ns ++ (record { handle = hi; id = i } ∷ [])) ≡ ok ns
unfolding erase_node
erase_node_last lo hi i [] r = rw (==_of_eq hi hi refl)
erase_node_last lo hi i (n ∷ ns) r = rw (
  ==_of_ne _ _ (below n.handle hi (rising_bound (suc n.handle) hi ns r.1)),
  erase_node_last (suc n.handle) hi i ns r.1,
)
  where
    rising_bound : (lo hi : ℕ) (ns : List Node) → Rising lo hi ns → lo ≤ hi
    rising_bound lo hi [] r = r
    rising_bound lo hi (n ∷ ns) r = omega (arith, rising_bound (suc n.handle) hi ns r.1)

    below : (a b : ℕ) → suc a ≤ b → a ≢ b
    below a b h e = omega arith

removal_of_known :
    (s : OrderSide) (i : ℕ) (e : OrderEntry) (m : Map OrderEntry)
    → lookup i m ≡ some e
    → remove_from m s (some i) ≡ remove_by_id s i (lookup i s.by_id)
unfolding remove_from lookup
removal_of_known s i e [] h = cc
removal_of_known s i e (x ∷ m) h = refl

-- On a side that represents a list of orders: when an order is added under an id of the list, and
-- that id is then removed, the removal succeeds and leaves a node with no entry: the getter throws
-- `std::out_of_range`.
pub duplicate_then_remove :
    (s : OrderSide) (os : List Order) (o : Order)
    → Represents s os
    → ¬ Absent o.id os
    → (t : OrderSide) × (remove_order_from_side (add_order_to_side s o) (some o.id) ≡ ok t)
      × (get_orders t ≡ err out_of_range)
unfolding remove_order_from_side add_order_to_side get_orders remove_by_id
duplicate_then_remove s os o r there =
    let entry : OrderEntry = record { order = o; it = s.next_handle } in
    let m = insert o.id entry s.by_id in
    let found : lookup o.id m ≡ some entry =
      lookup-insert o.id o.id entry s.by_id ∙ rw (==_of_eq o.id o.id refl) in
    let gone : lookup o.id (erase o.id m) ≡ none =
      lookup-erase o.id o.id m ∙ rw (==_of_eq o.id o.id refl) in
    (
      record { by_id = erase o.id m; in_order = s.in_order; next_handle = s.next_handle + 1 },
      removal_of_known (add_order_to_side s o) o.id entry m found
          ∙ rw (found, remove_by_id)
              (rw (erase_node_last 0 s.next_handle o.id s.in_order r.rising)),
      collect_orders_missing s.by_id (erase o.id m) s.in_order os o.id r.aligned there gone,
    )
