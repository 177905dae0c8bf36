-- ===== src/Tests/ClientLists.antt =====
-- The client list of src/client_list and the orders of its clients.
use mathlib.Core.List.{Mem, Nodup}
use stakan.Base.{ℕ, none}
use stakan.Clients.Lives.{life}
use stakan.Base.{
  ◌≡◌, ◌↔◌, ◌⊎◌, runtime_error, refl, List, [], ◌∷◌, some, true, ok, err, out_of_range, arith,
}
use stakan.Base.Map.{lookup, insert, erase}
use stakan.Wire.{Order}
use stakan.Clients.Orders.{
  OrderSide, empty_orders, add_order_to_side, remove_order_from_side, get_orders,
}
use stakan.Clients.Orders.Represents.{Represents, Absent}
use stakan.Clients.Orders.Refinement.{
  removed, add_order_to_side-Represents, remove_order_from_side-Represents, empty_orders-Represents,
}
use stakan.Clients.Orders.Duplicate.{duplicate_then_remove}
use stakan.Clients.{
  ClientList, make_client_list, has_client, remove_session, add_session, subscribe, unsubscribe,
  is_subscribed, get_subscribed_clients, find_client_id_by_session, client_at, put_context,
  remember_session, forget_session,
}
use stakan.Clients.Between.{client_between, call_between}
use stakan.Clients.Races.{call, some_removes, call_between_branches}
use stakan.Clients.History.{Call, adds_session, removes_session, subscribes, step, run}
use stakan.Clients.Ownership.{session_at, find_client_id_by_session_sound}
use stakan.Clients.Subscriptions.{get_subscribed_clients_iff}

abbrev first : Order
first = record { id = 1; price = 100; quantity = 10 }

abbrev second : Order
second = record { id = 2; price = 101; quantity = 20 }

abbrev one_order : OrderSide
one_order = add_order_to_side empty_orders first

one_order-Represents : Represents one_order (first ∷ [])
one_order-Represents = add_order_to_side-Represents empty_orders [] first empty_orders-Represents tt

second_is_new : Absent 2 (first ∷ [])
second_is_new = ((λ e. absurd (omega arith)), tt)

add_order_to_side-Represents_example :
    Represents (add_order_to_side one_order second) (first ∷ second ∷ [])
add_order_to_side-Represents_example =
    add_order_to_side-Represents one_order (first ∷ []) second one_order-Represents second_is_new

remove_order_from_side-Represents_example :
    (t : OrderSide) × (remove_order_from_side one_order (some 1) ≡ ok t)
    × Represents t (removed (some 1) (first ∷ []))
remove_order_from_side-Represents_example =
    remove_order_from_side-Represents one_order (first ∷ []) (some 1) one_order-Represents

duplicate_then_remove_example :
    (t : OrderSide) × (remove_order_from_side (add_order_to_side one_order first) (some 1) ≡ ok t)
    × (get_orders t ≡ err out_of_range)
duplicate_then_remove_example =
    duplicate_then_remove one_order (first ∷ []) first one_order-Represents (λ h. h.0 refl)

-- Client 1 has session 11 and is subscribed, client 2 has session 12.
abbrev calls : List Call
calls = adds_session 1 (some 11) ∷ adds_session 2 (some 12) ∷ subscribes 1 ∷ []

abbrev clients : ClientList
clients = run make_client_list calls

found : find_client_id_by_session clients 11 ≡ some 1
unfolding run step make_client_list add_session subscribe client_at put_context remember_session
    forget_session insert erase lookup find_client_id_by_session
found = refl

subscribed : is_subscribed clients 1 ≡ ok true
unfolding run step make_client_list add_session subscribe client_at put_context remember_session
    forget_session insert erase lookup is_subscribed
subscribed = refl

unsubscribed : unsubscribe clients 1 ≡ ok clients
unfolding run step make_client_list add_session subscribe client_at put_context remember_session
    forget_session insert erase lookup unsubscribe
unsubscribed = refl

find_client_id_by_session_sound_example : session_at clients 1 ≡ some (some 11)
find_client_id_by_session_sound_example = find_client_id_by_session_sound calls 11 1 found

get_subscribed_clients_iff_example :
    ((id : ℕ) → Mem id (get_subscribed_clients clients) ↔ (life id none calls ≡ some true))
    × Nodup (get_subscribed_clients clients)
get_subscribed_clients_iff_example = get_subscribed_clients_iff calls

-- Client 1 leaves between the test and the access of `subscribe`.
call_between_branches_example :
    (call_between clients (run clients (removes_session 1 ∷ [])) (subscribes 1)
      ≡ call (run clients (removes_session 1 ∷ [])) (subscribes 1))
    ⊎ ((call_between clients (run clients (removes_session 1 ∷ [])) (subscribes 1)
          ≡ err runtime_error)
        × (call clients (subscribes 1) ≡ err runtime_error))
    ⊎ ((call_between clients (run clients (removes_session 1 ∷ [])) (subscribes 1)
          ≡ err out_of_range)
        × (call (run clients (removes_session 1 ∷ [])) (subscribes 1) ≡ err runtime_error)
        × (some_removes 1 (removes_session 1 ∷ []) ≡ true))
call_between_branches_example =
    call_between_branches clients (removes_session 1 ∷ []) (subscribes 1)

left_between :
    call_between clients (run clients (removes_session 1 ∷ [])) (subscribes 1) ≡ err out_of_range
unfolding run step make_client_list add_session subscribe client_at put_context remember_session
    forget_session remove_session insert erase lookup call_between client_between has_client
left_between = refl
