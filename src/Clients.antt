-- ===== src/Clients.antt =====
-- src/client_list/client_list.cpp: the class `ClientList`. Each call holds the mutex, so it is one step;
-- the calls that look a client up first (`has_client`) release it in between. Here no other call comes
-- there; Between has the same calls with others in between. Console output is left out.
pub mod Orders
pub mod Inbox
pub mod History
pub mod Between
pub mod Races
pub mod Ownership
pub mod Sharing
pub mod Lives
pub mod Subscriptions
pub mod Broadcasts
use stakan.Base.{
  ℕ, Bool, true, false, List, [], ◌∷◌, Option, none, some, Result, ok, err, ◌>>=◌, or_fail,
  runtime_error, undefined, length, if◌then◌else◌,
}
use stakan.Base.Map.{Map, lookup, insert, erase}
use stakan.Wire.{Order}
use Orders.{OrderSide, empty_orders, add_order_to_side, remove_order_from_side, get_orders}

-- A session is known by the address of its object; `none` is the null pointer.
abbrev pub SessionPtr : Type 0
SessionPtr = Option ℕ

pub record ClientContext : Type 0 where
  pub session : SessionPtr
  pub bids : OrderSide
  pub asks : OrderSide
  pub subscribed : Bool

-- A context as `operator[]` makes it for a new key.
abbrev pub new_context : ClientContext
new_context = record {
  session = none;
  bids = empty_orders;
  asks = empty_orders;
  subscribed = false;
}

pub record ClientList : Type 0 where
  pub clients : Map ClientContext
  pub session_to_client : Map ℕ

unfoldable pub make_client_list : ClientList
make_client_list = record { clients = []; session_to_client = [] }

-- `clients_[id]`
abbrev pub context_or_new : Option ClientContext → ClientContext
context_or_new none = new_context
context_or_new (some c) = c

-- `session_to_client_.erase(session.get())` for the session of a client that is there and has one.
unfoldable pub forget_session : Option ClientContext → Map ℕ → Map ℕ
forget_session none m = m
forget_session (some c) m = elim c.session [ none ↦ m | some s ↦ erase s m ]

-- `session_to_client_[session.get()] = id` for a session that is not null.
unfoldable pub remember_session : SessionPtr → ℕ → Map ℕ → Map ℕ
remember_session none id m = m
remember_session (some s) id m = insert s id m

unfoldable pub add_session : ClientList → ℕ → SessionPtr → ClientList
unfolding forget_session remember_session
add_session l id session =
    let it = lookup id l.clients in
    record {
      clients = insert id (record (context_or_new it) { session = session }) l.clients;
      session_to_client = remember_session session id (forget_session it l.session_to_client);
    }

unfoldable pub remove_session : ClientList → ℕ → ClientList
unfolding forget_session
remove_session l id = record {
  clients = erase id l.clients;
  session_to_client = forget_session (lookup id l.clients) l.session_to_client;
}

unfoldable pub has_client : ClientList → ℕ → Bool
has_client l id = elim (lookup id l.clients) [ none ↦ false | some c ↦ true ]

-- The test `has_client` and the access `clients_.at(id)` behind it.
unfoldable pub client_at : ClientList → ℕ → Result ClientContext
client_at l id = or_fail (lookup id l.clients) runtime_error

unfoldable pub get_session : ClientList → ℕ → Result SessionPtr
unfolding client_at
get_session l id = client_at l id >>= λ c. ok c.session

unfoldable pub size : ClientList → ℕ
size l = length l.clients

unfoldable pub sessions_of : Map ClientContext → List SessionPtr
sessions_of [] = []
sessions_of ((id, c) ∷ m) =
    let rest = sessions_of m in elim c.session [ none ↦ rest | some s ↦ some s ∷ rest ]

unfoldable pub get_all_sessions : ClientList → List SessionPtr
unfolding sessions_of
get_all_sessions l = sessions_of l.clients

-- The client's context is changed in the map, through a reference.
unfoldable pub put_context : ClientList → ℕ → ClientContext → ClientList
put_context l id c = record l { clients = insert id c l.clients }

unfoldable pub add_bid : ClientList → ℕ → Option Order → Result ClientList
unfolding client_at put_context
add_bid l id bid = do
  ctx ← client_at l id
  order ← or_fail bid undefined
  ok (put_context l id (record ctx { bids = add_order_to_side ctx.bids order }))

unfoldable pub add_ask : ClientList → ℕ → Option Order → Result ClientList
unfolding client_at put_context
add_ask l id ask = do
  ctx ← client_at l id
  order ← or_fail ask undefined
  ok (put_context l id (record ctx { asks = add_order_to_side ctx.asks order }))

unfoldable pub remove_bid : ClientList → ℕ → Option ℕ → Result ClientList
unfolding client_at put_context
remove_bid l id order_id = do
  ctx ← client_at l id
  side ← remove_order_from_side ctx.bids order_id
  ok (put_context l id (record ctx { bids = side }))

unfoldable pub remove_ask : ClientList → ℕ → Option ℕ → Result ClientList
unfolding client_at put_context
remove_ask l id order_id = do
  ctx ← client_at l id
  side ← remove_order_from_side ctx.asks order_id
  ok (put_context l id (record ctx { asks = side }))

unfoldable pub get_bids : ClientList → ℕ → Result (List Order)
unfolding client_at
get_bids l id = client_at l id >>= λ ctx. get_orders ctx.bids

unfoldable pub get_asks : ClientList → ℕ → Result (List Order)
unfolding client_at
get_asks l id = client_at l id >>= λ ctx. get_orders ctx.asks

unfoldable pub is_subscribed : ClientList → ℕ → Result Bool
unfolding client_at
is_subscribed l id = client_at l id >>= λ ctx. ok ctx.subscribed

unfoldable pub subscribe : ClientList → ℕ → Result ClientList
unfolding client_at put_context
subscribe l id = client_at l id >>= λ ctx. ok (put_context l id (record ctx { subscribed = true }))

-- `auto it = clients_.at(id)` makes a copy, and the flag of the copy is cleared.
unfoldable pub unsubscribe : ClientList → ℕ → Result ClientList
unfolding client_at
unsubscribe l id = client_at l id >>= λ it. (let copy = record it { subscribed = false } in ok l)

unfoldable pub subscribed_ids : Map ClientContext → List ℕ
subscribed_ids [] = []
subscribed_ids ((id, c) ∷ m) =
    let rest = subscribed_ids m in if c.subscribed then id ∷ rest else rest

unfoldable pub get_subscribed_clients : ClientList → List ℕ
unfolding subscribed_ids
get_subscribed_clients l = subscribed_ids l.clients

unfoldable pub subscribed_sessions : Map ClientContext → List SessionPtr
subscribed_sessions [] = []
subscribed_sessions ((id, c) ∷ m) =
    let rest = subscribed_sessions m in if c.subscribed then c.session ∷ rest else rest

unfoldable pub get_subscribed_sessions : ClientList → List SessionPtr
unfolding subscribed_sessions
get_subscribed_sessions l = subscribed_sessions l.clients

unfoldable pub find_client_id_by_session : ClientList → ℕ → Option ℕ
find_client_id_by_session l session = lookup session l.session_to_client
