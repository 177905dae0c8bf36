-- ===== src/Clients/Orders.antt =====
-- The orders of one client on one side: a map by id and a list in order of arrival, with an iterator
-- into the list in each entry of the map.
pub mod Represents
pub mod Erase
pub mod Pop
pub mod Refinement
pub mod Duplicate
use stakan.Base.{
  ℕ, suc, ◌+◌, List, [], ◌∷◌, ◌++◌, Option, none, some, Result, ok, err, ◌>>=◌, or_fail,
  out_of_range, undefined, ◌==◌, if◌then◌else◌,
}
use stakan.Base.Map.{Map, lookup, insert, erase}
use stakan.Wire.{Order}

-- A node of the `std::list`. The handle is the node's identity, which an iterator names.
pub record Node : Type 0 where
  pub handle : ℕ
  pub id : ℕ

pub record OrderEntry : Type 0 where
  pub order : Order
  pub it : ℕ

-- `next_handle` is the identity of the next node to be made.
pub record OrderSide : Type 0 where
  pub by_id : Map OrderEntry
  pub in_order : List Node
  pub next_handle : ℕ

abbrev pub empty_orders : OrderSide
empty_orders = record { by_id = []; in_order = []; next_handle = 0 }

unfoldable pub add_order_to_side : OrderSide → Order → OrderSide
add_order_to_side s order =
    let node : Node = record { handle = s.next_handle; id = order.id } in
    record {
      by_id = insert order.id (record { order = order; it = s.next_handle }) s.by_id;
      in_order = s.in_order ++ (node ∷ []);
      next_handle = s.next_handle + 1;
    }

-- `in_order.erase(it)`: undefined if the node is not in the list.
unfoldable pub erase_node : ℕ → List Node → Result (List Node)
erase_node h [] = err undefined
erase_node h (n ∷ ns) =
    let rest = erase_node h ns >>= λ ms. ok (n ∷ ms) in if n.handle == h then ok ns else rest

-- `in_order.back()` and `in_order.pop_back()`: undefined if the list is empty.
unfoldable pub pop_back : List Node → Result (List Node × ℕ)
pop_back [] = err undefined
pop_back (n ∷ []) = ok ([], n.id)
pop_back (n ∷ m ∷ ns) = pop_back (m ∷ ns) >>= λ r. ok (n ∷ r.0, r.1)

unfoldable pub remove_by_id : OrderSide → ℕ → Option OrderEntry → Result OrderSide
unfolding erase_node
remove_by_id s order_id none = ok s
remove_by_id s order_id (some e) = erase_node e.it s.in_order >>= λ nodes.
    ok (record s { in_order = nodes; by_id = erase order_id s.by_id })

unfoldable pub remove_last : OrderSide → Result OrderSide
unfolding pop_back
remove_last s =
    pop_back s.in_order >>= λ r. ok (record s { in_order = r.0; by_id = erase r.1 s.by_id })

-- The branches on `by_id.empty()` and on the optional id.
unfoldable pub remove_from : Map OrderEntry → OrderSide → Option ℕ → Result OrderSide
unfolding remove_by_id remove_last
remove_from [] s order_id = ok s
remove_from (_ ∷ _) s none = remove_last s
remove_from (_ ∷ _) s (some i) = remove_by_id s i (lookup i s.by_id)

unfoldable pub remove_order_from_side : OrderSide → Option ℕ → Result OrderSide
unfolding remove_from
remove_order_from_side s order_id = remove_from s.by_id s order_id

-- The loop of `get_bids` and `get_asks`.
unfoldable pub collect_orders : Map OrderEntry → List Node → Result (List Order)
collect_orders by_id [] = ok []
collect_orders by_id (n ∷ ns) = do
  e ← or_fail (lookup n.id by_id) out_of_range
  rest ← collect_orders by_id ns
  ok (e.order ∷ rest)

unfoldable pub get_orders : OrderSide → Result (List Order)
unfolding collect_orders
get_orders s = collect_orders s.by_id s.in_order
