-- ===== src/Clients/Orders/Refinement.antt =====
-- The operations of a side refine those of the list of orders that it stands for.
use stakan.Base.{
  ℕ, ◌≡◌, ◌≢◌, refl, ◌∙◌, ap, List, [], ◌∷◌, ◌++◌, Option, none, some, ok, arith, ==_of_eq,
}
use stakan.Base.Map.{Map, lookup, lookup-insert}
use stakan.Wire.{Order}
use stakan.Clients.Orders.{
  Node, OrderEntry, OrderSide, empty_orders, add_order_to_side, remove_by_id, remove_last,
  remove_from, remove_order_from_side, get_orders,
}
use stakan.Clients.Orders.Represents.{
  Absent, Aligned, Represents, remove_order, drop_last, Aligned-insert, DistinctIds-append,
  Rising-append, Aligned-append, collect_orders-Aligned,
}
use stakan.Clients.Orders.Erase.{remove_by_id-Represents}
use stakan.Clients.Orders.Pop.{remove_last-Represents}

Absent-append_inv :
    (k : ℕ) (os : List Order) (o : Order) → Absent k (os ++ (o ∷ [])) → Absent k os × (o.id ≢ k)
Absent-append_inv k [] o a = (tt, a.0)
Absent-append_inv k (p ∷ os) o a = let (b, h) = Absent-append_inv k os o a.1 in ((a.0, b), h)

-- On a side that represents a list of orders, adding an order with a new id gives one that
-- represents the list with that order at its end.
pub add_order_to_side-Represents :
    (s : OrderSide) (os : List Order) (o : Order)
    → Represents s os
    → Absent o.id os
    → Represents (add_order_to_side s o) (os ++ (o ∷ []))
unfolding add_order_to_side
add_order_to_side-Represents s os o r new = record {
  aligned =
      Aligned-append _ s.in_order os _ o (Aligned-insert s.by_id s.in_order os o.id _ new r.aligned)
        refl
        (ground
          (arith, lookup-insert o.id o.id (record { order = o; it = s.next_handle }) s.by_id));
  rising = Rising-append 0 s.next_handle o.id s.in_order r.rising;
  distinct = DistinctIds-append os o new r.distinct;
  only = λ k a.
      let (b, h) = Absent-append_inv k os o a in
      ground (
        arith,
        lookup-insert o.id k (record { order = o; it = s.next_handle }) s.by_id,
        r.only k b,
        h,
      );
}

lookup_nothing : (m : Map OrderEntry) → ((k : ℕ) → lookup k m ≡ none) → m ≡ []
unfolding lookup
lookup_nothing [] h = refl
lookup_nothing ((j, e) ∷ m) h = absurd (none_some e (rw (==_of_eq j j refl) at (h j)))
  where
    none_some : (e : OrderEntry) → some e ≢ none
    none_some e p = cc

lookup_empty : (k : ℕ) (e : OrderEntry) → lookup k [] ≢ some e
unfolding lookup
lookup_empty k e h = cc

-- A side that stands for an order has entries.
removal_branch :
    (s : OrderSide) (o : Order) (os : List Order) (ns : List Node) (m : Map OrderEntry)
    → Aligned m ns (o ∷ os)
    → (i : Option ℕ)
    → remove_from m s i
      ≡ elim i [ none ↦ remove_last s | some k ↦ remove_by_id s k (lookup k s.by_id) ]
unfolding remove_from
removal_branch s o os [] m a i = absurd a
removal_branch s o os (n ∷ ns) [] a i = absurd (lookup_empty o.id _ a.1)
removal_branch s o os (n ∷ ns) (x ∷ m) a none = refl
removal_branch s o os (n ∷ ns) (x ∷ m) a (some k) = refl

-- What a removal does to the list of orders: the order of a given id goes, or the last one.
abbrev pub removed : Option ℕ → List Order → List Order
removed none os = drop_last os
removed (some i) os = remove_order i os

-- On a side that represents a list of orders, which have distinct ids, a removal never fails: the
-- new side represents the list without the order of the given id, if there is one, or, with no id
-- given, without its last order, if there is one.
pub remove_order_from_side-Represents :
    (s : OrderSide) (os : List Order) (order_id : Option ℕ)
    → Represents s os
    → (t : OrderSide) × (remove_order_from_side s order_id ≡ ok t)
      × Represents t (removed order_id os)
unfolding remove_order_from_side
remove_order_from_side-Represents s [] none r =
    (s, ap (λ m. remove_from m s none) (lookup_nothing s.by_id (λ k. r.only k tt)), r)
remove_order_from_side-Represents s [] (some i) r =
    (s, ap (λ m. remove_from m s (some i)) (lookup_nothing s.by_id (λ k. r.only k tt)), r)
remove_order_from_side-Represents s (o ∷ os) none r =
    let (t, e, q) = remove_last-Represents s s.in_order o os refl r in
    (t, removal_branch s o os s.in_order s.by_id r.aligned none ∙ e, q)
remove_order_from_side-Represents s (o ∷ os) (some i) r =
    let (t, e, q) = remove_by_id-Represents s (o ∷ os) i r in
    (t, removal_branch s o os s.in_order s.by_id r.aligned (some i) ∙ e, q)

-- On a side that represents a list of orders the getter returns that list.
pub get_orders-Represents :
    (s : OrderSide) (os : List Order) → Represents s os → get_orders s ≡ ok os
unfolding get_orders
get_orders-Represents s os r = collect_orders-Aligned s.by_id s.in_order os r.aligned

pub empty_orders-Represents : Represents empty_orders []
empty_orders-Represents = record {
  aligned = tt;
  rising = omega arith;
  distinct = tt;
  only = λ k a. unfold lookup in refl;
}
