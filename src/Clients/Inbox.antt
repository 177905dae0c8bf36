-- ===== src/Clients/Inbox.antt =====
-- The messages that the client list hands to sessions: `broadcast_to_subscribed` and
-- `broadcast_to_certain`.
use stakan.Base.{ℕ, List, [], ◌∷◌, Result, ok, ◌>>=◌, or_fail, undefined}
use stakan.Clients.{SessionPtr, ClientList, get_session, get_subscribed_sessions}

-- A call `SendMsg(message)` on a session.
pub record Delivery : Type 0 where
  pub session : ℕ
  pub message : List ℕ

-- `s->SendMsg(message)`
unfoldable pub send_to : SessionPtr → List ℕ → Result Delivery
send_to s message = or_fail s undefined >>= λ p. ok (record { session = p; message = message })

unfoldable pub send_all : List SessionPtr → List ℕ → Result (List Delivery)
unfolding send_to
send_all [] message = ok []
send_all (s ∷ ss) message = do
  sent ← send_to s message
  rest ← send_all ss message
  ok (sent ∷ rest)

unfoldable pub broadcast_to_subscribed : ClientList → List ℕ → Result (List Delivery)
unfolding send_all
broadcast_to_subscribed l message = send_all (get_subscribed_sessions l) message

unfoldable pub broadcast_to_certain : ClientList → ℕ → List ℕ → Result Delivery
unfolding send_to
broadcast_to_certain l id message = get_session l id >>= λ s. send_to s message
