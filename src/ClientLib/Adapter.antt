-- ===== src/ClientLib/Adapter.antt =====
-- client_lib/order_book_client.cpp: `CallbacksAdapter`, and `Connect` of src/client.cpp with the functions
-- of the application behind it, any of which may be empty. The class does not override `OnMDUpdate`.
use stakan.Base.{
  ◌≡◌, ◌≢◌, refl, sym, ap, ◌∙◌, Bool, true, false, Result, ok, err, bad_function_call, Bool-cases,
  inl, inr, if◌then◌else◌, if_true, if_false,
}
use stakan.TcpClient.{on_connected, on_error}
use stakan.TcpClient.Connection.{TcpClient, call, connect, start_thread}

-- `ClientCallbacks`: which of its functions are set.
pub record ClientCallbacks : Type 0 where
  pub has_connected : Bool
  pub has_disconnected : Bool
  pub has_snapshot : Bool
  pub has_error : Bool

abbrev pub all_set : ClientCallbacks
all_set = record {
  has_connected = true;
  has_disconnected = true;
  has_snapshot = true;
  has_error = true;
}

-- The calls of the adapter.
pub data AdapterCall : Type 0 where
  connected_ disconnected_ top_of_book error_ : AdapterCall

-- The call of a `std::function`, which throws if it is empty.
abbrev invoke : Bool → Result (Unit {0})
invoke true = ok tt
invoke false = err bad_function_call

-- `OnConnected`, `OnDisconnected`, `OnTopOfBook` and `OnError`
unfoldable pub adapter_call : ClientCallbacks → AdapterCall → Result (Unit {0})
adapter_call cb connected_ = invoke cb.has_connected
adapter_call cb disconnected_ = invoke cb.has_disconnected
adapter_call cb top_of_book = invoke cb.has_snapshot
adapter_call cb error_ = invoke cb.has_error

-- How `Connect` leaves the client, and what it returns or throws.
pub record Left : Type 0 where
  pub client : TcpClient
  pub outcome : Result Bool

-- The handler of exceptions in `Connect`, which calls `OnError`.
abbrev report_failure : TcpClient → Result (Unit {0}) → Left
report_failure c (ok _) = record { client = call c on_error; outcome = ok false }
report_failure c (err e) = record { client = c; outcome = err e }

abbrev started : Result (TcpClient × Bool) → Result Left
started (ok (c, result)) = ok (record { client = c; outcome = ok result })
started (err e) = err e

-- `Connect` behind `connected = true`, by how `OnConnected` ends.
abbrev after_connected : ClientCallbacks → TcpClient → Result (Unit {0}) → Result Left
after_connected cb c (ok _) = started (start_thread (call c on_connected) c.io_thread)
after_connected cb c (err e) = ok (report_failure c (adapter_call cb error_))

-- `Connect`, over these callbacks
unfoldable pub connect_with : ClientCallbacks → TcpClient → Bool → Result Left
unfolding adapter_call
connect_with cb c reachable =
    if c.connected
    then ok (record { client = c; outcome = ok true })
    else if reachable
    then after_connected cb (record c { connected = true }) (adapter_call cb connected_)
    else ok (report_failure c (adapter_call cb error_))

-- If the functions for a connection and for an error are set, this is `Connect` over callbacks that do
-- not throw.
pub connect_with-connect :
    (cb : ClientCallbacks) (c : TcpClient) (reachable : Bool)
    → cb.has_connected ≡ true
    → cb.has_error ≡ true
    → connect_with cb c reachable ≡ started (connect c reachable)
unfolding connect_with connect adapter_call
connect_with-connect cb c reachable on told = elim (Bool-cases c.connected) [
  | inl up ↦ if_true _ _ up ∙ ap started (sym (if_true _ _ up))
  | inr down ↦ if_false _ _ down ∙ tried reachable ∙ ap started (sym (if_false _ _ down))
]
  where
    tried :
        (reachable : Bool)
        → (if reachable
            then after_connected cb (record c { connected = true }) (invoke cb.has_connected)
            else ok (report_failure c (invoke cb.has_error)))
          ≡ started (
              if reachable
              then start_thread (call (record c { connected = true }) on_connected) c.io_thread
              else ok (call c on_error, false))
    tried true = ap (λ b. after_connected cb (record c { connected = true }) (invoke b)) on
    tried false = ap (λ b. ok (report_failure c (invoke b))) told

failed-client :
    (c : TcpClient) (r : Result (Unit {0})) → (report_failure c r).client.connected ≡ c.connected
failed-client c (ok _) = refl
failed-client c (err e) = refl

failed-thread :
    (c : TcpClient) (r : Result (Unit {0})) → (report_failure c r).client.io_thread ≡ c.io_thread
failed-thread c (ok _) = refl
failed-thread c (err e) = refl

failed-outcome : (c : TcpClient) (r : Result (Unit {0})) → (report_failure c r).outcome ≢ ok true
failed-outcome c (ok _) e = cc
failed-outcome c (err f) e = cc

-- If the function for a connection is empty, `Connect` to a server that can be reached does not return
-- true, but leaves the client connected and starts no thread that reads; from then on `Connect` returns
-- true and does nothing.
pub empty_on_connected :
    (cb : ClientCallbacks) (c : TcpClient)
    → c.connected ≡ false
    → cb.has_connected ≡ false
    → (left : Left) × (connect_with cb c true ≡ ok left)
      × (left.outcome ≢ ok true)
      × (left.client.connected ≡ true)
      × (left.client.io_thread ≡ c.io_thread)
      × ((reachable : Bool)
          → connect_with cb left.client reachable
            ≡ ok (record { client = left.client; outcome = ok true }))
unfolding connect_with adapter_call
empty_on_connected cb c down empty =
    let up : TcpClient = record c { connected = true } in
    let r = adapter_call cb error_ in
    (
      report_failure up r,
      if_false _ _ down ∙ ap (λ b. after_connected cb up (invoke b)) empty,
      failed-outcome up r,
      failed-client up r,
      failed-thread up r,
      λ reachable. if_true _ _ (failed-client up r),
    )
