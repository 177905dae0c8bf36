-- ===== src/Clients/History.antt =====
-- Any sequence of calls on the client list. A call that throws leaves the list as it was.
use stakan.Base.{ℕ, ◌≡◌, refl, List, [], ◌∷◌, Option, Result, ok, err, ◌>>=◌, or_fail, undefined}
use stakan.Wire.{Order}
use stakan.Clients.Orders.{remove_order_from_side}
use stakan.Clients.{
  ClientList, ClientContext, SessionPtr, client_at, put_context, add_session, remove_session,
  add_bid, add_ask, remove_bid, remove_ask, subscribe, unsubscribe,
}

pub data Call : Type 0 where
  adds_session : ℕ → SessionPtr → Call
  removes_session : ℕ → Call
  adds_bid adds_ask : ℕ → Option Order → Call
  removes_bid removes_ask : ℕ → Option ℕ → Call
  subscribes unsubscribes : ℕ → Call

abbrev pub after : ClientList → Result ClientList → ClientList
after l (ok m) = m
after l (err e) = l

unfoldable pub step : ClientList → Call → ClientList
step l (adds_session id s) = add_session l id s
step l (removes_session id) = remove_session l id
step l (adds_bid id o) = after l (add_bid l id o)
step l (adds_ask id o) = after l (add_ask l id o)
step l (removes_bid id i) = after l (remove_bid l id i)
step l (removes_ask id i) = after l (remove_ask l id i)
step l (subscribes id) = after l (subscribe l id)
step l (unsubscribes id) = after l (unsubscribe l id)

unfoldable pub run : ClientList → List Call → ClientList
run l [] = l
run l (c ∷ cs) = run (step l c) cs

-- What holds of a list and of every list that a call may change it into holds behind any call.
module _ (P : ClientList → Type 0) (l : ClientList) (now : P l) where
  bind_keeps :
      {A : Type 0} (r : Result A) (f : A → Result ClientList)
      → ((a : A) → P (after l (f a)))
      → P (after l (r >>= f))
  bind_keeps (ok a) f h = h a
  bind_keeps (err e) f h = now

  module _ (put : (id : ℕ) (c : ClientContext) → P (put_context l id c)) where
    pub step_keeps :
        (c : Call)
        → ((id : ℕ) (s : SessionPtr) → P (add_session l id s))
        → ((id : ℕ) → c ≡ removes_session id → P (remove_session l id))
        → P (step l c)
    unfolding step add_bid add_ask remove_bid remove_ask subscribe unsubscribe
    step_keeps (adds_session id s) added removed = added id s
    step_keeps (removes_session id) added removed = removed id refl
    step_keeps (adds_bid id o) added removed =
        bind_keeps (client_at l id) _ (λ c. bind_keeps (or_fail o undefined) _ (λ x. put id _))
    step_keeps (adds_ask id o) added removed =
        bind_keeps (client_at l id) _ (λ c. bind_keeps (or_fail o undefined) _ (λ x. put id _))
    step_keeps (removes_bid id i) added removed =
        bind_keeps (client_at l id) _
          (λ c. bind_keeps (remove_order_from_side c.bids i) _ (λ x. put id _))
    step_keeps (removes_ask id i) added removed =
        bind_keeps (client_at l id) _
          (λ c. bind_keeps (remove_order_from_side c.asks i) _ (λ x. put id _))
    step_keeps (subscribes id) added removed = bind_keeps (client_at l id) _ (λ c. put id _)
    step_keeps (unsubscribes id) added removed = bind_keeps (client_at l id) _ (λ c. now)
