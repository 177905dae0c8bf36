-- ===== src/Clients/Orders/Represents.antt =====
-- The list of orders that a side stands for, and when it does.
use stakan.Base.{
  ℕ, suc, ◌+◌, ◌≤◌, ◌≡◌, ◌≢◌, refl, sym, List, [], ◌∷◌, ◌++◌, none, some, ok, ◌==◌, if◌then◌else◌,
  arith, ℕ_discrete,
}
use stakan.Base.Map.{Map, lookup, insert, erase, lookup-insert, lookup-erase}
use stakan.Wire.{Order}
use stakan.Clients.Orders.{Node, OrderEntry, OrderSide, collect_orders}

-- No order of the list has this id.
abbrev pub Absent : ℕ → List Order → Type 0
Absent i [] = Unit {0}
Absent i (o ∷ os) = (o.id ≢ i) × Absent i os

abbrev pub DistinctIds : List Order → Type 0
DistinctIds [] = Unit {0}
DistinctIds (o ∷ os) = Absent o.id os × DistinctIds os

-- The nodes and the orders go in step: each node has its order's id, and the map's entry under that id
-- has the order and an iterator to the node.
abbrev pub Aligned : Map OrderEntry → List Node → List Order → Type 0
Aligned m [] [] = Unit {0}
Aligned m [] (o ∷ os) = ⊥
Aligned m (n ∷ ns) [] = ⊥
Aligned m (n ∷ ns) (o ∷ os) =
    (n.id ≡ o.id) × (lookup o.id m ≡ some (record { order = o; it = n.handle })) × Aligned m ns os

-- Handles rise along the list, from `lo` on and below `hi`.
abbrev pub Rising : ℕ → ℕ → List Node → Type 0
Rising lo hi [] = lo ≤ hi
Rising lo hi (n ∷ ns) = (lo ≤ n.handle) × Rising (suc n.handle) hi ns

pub record Represents (s : OrderSide) (os : List Order) : Type 0 where
  pub aligned : Aligned s.by_id s.in_order os
  pub rising : Rising 0 s.next_handle s.in_order
  pub distinct : DistinctIds os
  -- The map has no other keys.
  pub only : (k : ℕ) → Absent k os → lookup k s.by_id ≡ none

-- What the operations do to the list of orders.
abbrev pub remove_order : ℕ → List Order → List Order
remove_order i [] = []
remove_order i (o ∷ os) = let rest = remove_order i os in if o.id == i then os else o ∷ rest

abbrev pub drop_last : List Order → List Order
drop_last [] = []
drop_last (o ∷ []) = []
drop_last (o ∷ p ∷ os) = o ∷ drop_last (p ∷ os)

-- An entry under an id that no order has does not matter.
pub Aligned-insert :
    (m : Map OrderEntry) (ns : List Node) (os : List Order) (i : ℕ) (e : OrderEntry)
    → Absent i os
    → Aligned m ns os
    → Aligned (insert i e m) ns os
Aligned-insert m [] [] i e a h = tt
Aligned-insert m [] (o ∷ os) i e a h = h
Aligned-insert m (n ∷ ns) [] i e a h = h
Aligned-insert m (n ∷ ns) (o ∷ os) i e a h =
    (h.0, ground (arith, lookup-insert i o.id e m), Aligned-insert m ns os i e a.1 h.2)

pub Aligned-erase :
    (m : Map OrderEntry) (ns : List Node) (os : List Order) (i : ℕ)
    → Absent i os
    → Aligned m ns os
    → Aligned (erase i m) ns os
Aligned-erase m [] [] i a h = tt
Aligned-erase m [] (o ∷ os) i a h = h
Aligned-erase m (n ∷ ns) [] i a h = h
Aligned-erase m (n ∷ ns) (o ∷ os) i a h =
    (h.0, ground (arith, lookup-erase i o.id m), Aligned-erase m ns os i a.1 h.2)

pub Absent-append :
    (i : ℕ) (os : List Order) (o : Order) → Absent i os → o.id ≢ i → Absent i (os ++ (o ∷ []))
Absent-append i [] o a h = (h, tt)
Absent-append i (p ∷ os) o a h = (a.0, Absent-append i os o a.1 h)

pub DistinctIds-append :
    (os : List Order) (o : Order) → Absent o.id os → DistinctIds os → DistinctIds (os ++ (o ∷ []))
DistinctIds-append [] o a d = (tt, tt)
DistinctIds-append (p ∷ os) o a d =
    (Absent-append p.id os o d.0 (λ e. a.0 (sym e)), DistinctIds-append os o a.1 d.1)

pub Rising-append :
    (lo hi i : ℕ) (ns : List Node)
    → Rising lo hi ns
    → Rising lo (hi + 1) (ns ++ (record { handle = hi; id = i } ∷ []))
Rising-append lo hi i [] h = (h, omega arith)
Rising-append lo hi i (n ∷ ns) h = (h.0, Rising-append (suc n.handle) hi i ns h.1)

pub Aligned-append :
    (m : Map OrderEntry) (ns : List Node) (os : List Order) (n : Node) (o : Order)
    → Aligned m ns os
    → n.id ≡ o.id
    → lookup o.id m ≡ some (record { order = o; it = n.handle })
    → Aligned m (ns ++ (n ∷ [])) (os ++ (o ∷ []))
Aligned-append m [] [] n o h p q = (p, q, tt)
Aligned-append m [] (x ∷ os) n o h p q = absurd h
Aligned-append m (y ∷ ns) [] n o h p q = absurd h
Aligned-append m (y ∷ ns) (x ∷ os) n o h p q = (h.0, h.1, Aligned-append m ns os n o h.2 p q)

pub collect_orders-Aligned :
    (m : Map OrderEntry) (ns : List Node) (os : List Order)
    → Aligned m ns os
    → collect_orders m ns ≡ ok os
unfolding collect_orders
collect_orders-Aligned m [] [] h = refl
collect_orders-Aligned m [] (o ∷ os) h = absurd h
collect_orders-Aligned m (n ∷ ns) [] h = absurd h
collect_orders-Aligned m (n ∷ ns) (o ∷ os) h =
    rw (h.0) (rw (h.1, collect_orders-Aligned m ns os h.2))

-- The id of an order decides: it is in the list or not.
pub Absent-dec : (i : ℕ) (os : List Order) → Dec (Absent i os)
Absent-dec i [] = yes tt
Absent-dec i (o ∷ os) = elim (ℕ_discrete o.id i) [
  | yes here ↦ no (λ a. a.0 here)
  | no other ↦ elim (Absent-dec i os) [ yes a ↦ yes (other, a) | no found ↦ no (λ a. found a.1) ]
]
