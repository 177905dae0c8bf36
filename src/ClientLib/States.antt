-- ===== src/ClientLib/States.antt =====
-- What `State` says of the connection.
use mathlib.Core.Path.{subst}
use stakan.TcpClient.{on_connected, on_error}
use stakan.Base.{
  ℕ, ◌≡◌, ◌⊎◌, refl, sym, ◌∙◌, Bool, true, false, List, [], ◌∷◌, Result, ok, err, ◌>>=◌,
  if◌then◌else◌, if_true, if_false, inl, inr, Bool-cases,
}
use stakan.TcpClient.Connection.{
  TcpClient, Thread, no_thread, reading, ended, start_thread, thread_throws, reader_throws,
  send_line, new_tcp_client,
}
use stakan.TcpClient.Connection as Tcp
use stakan.TcpClient.Flags.{disconnect_connected, send_line_connected}
use stakan.ClientLib.{
  OrderBookClient, connected, after_connect, new_client, connect, disconnect, subscribe,
  unsubscribe, is_connected,
}

-- The calls of the application, and the loss of the connection.
pub data Event : Type 0 where
  connects disconnects : Bool → Event
  loses : Event
  subscribes unsubscribes : List ℕ → Bool → Event

unfoldable pub handle : OrderBookClient → Event → Result OrderBookClient
handle c (connects reachable) = connect c reachable
handle c (disconnects by_exception) = ok (disconnect c by_exception)
handle c loses = ok (record c { client = reader_throws c.client })
handle c (subscribes ticker writes) = ok (subscribe c ticker writes)
handle c (unsubscribes ticker writes) = ok (unsubscribe c ticker writes)

unfoldable pub run : OrderBookClient → List Event → Result OrderBookClient
run c [] = ok c
run c (e ∷ es) = handle c e >>= λ d. run d es

abbrev IsTold : OrderBookClient → Type 0
IsTold c = (c.client.connected ≡ false) ⊎ (c.state ≡ connected)

-- A result, if there is one, is told.
abbrev AllTold : Result OrderBookClient → Type 0
AllTold (ok c) = IsTold c
AllTold (err e) = Unit {0}

started-IsTold :
    (c : OrderBookClient) (t : TcpClient) (thread : Thread)
    → AllTold (after_connect c (start_thread t thread))
started-IsTold c t no_thread = inr refl
started-IsTold c t reading = tt
started-IsTold c t ended = tt

connect-AllTold : (c : OrderBookClient) (reachable : Bool) → AllTold (connect c reachable)
unfolding connect Tcp.connect
connect-AllTold c reachable = elim (Bool-cases c.client.connected) [
  | inl on ↦ subst (λ r. AllTold (after_connect c r)) (sym (if_true _ _ on)) (inr refl)
  | inr off ↦
      subst (λ r. AllTold (after_connect c r)) (sym (if_false _ _ off)) (tried c reachable off)
]
  where
    tried :
        (c : OrderBookClient) (reachable : Bool)
        → c.client.connected ≡ false
        → AllTold (
            after_connect c (
              if reachable
              then start_thread
                  (Tcp.call (record c.client { connected = true }) on_connected)
                  c.client.io_thread
              else ok (Tcp.call c.client on_error, false)))
    tried c true off =
        started-IsTold c (Tcp.call (record c.client { connected = true }) on_connected)
          c.client.io_thread
    tried c false off = inl off

throws-IsTold :
    (c : OrderBookClient) (thread : Thread)
    → IsTold c
    → IsTold (record c { client = thread_throws c.client thread })
throws-IsTold c no_thread h = h
throws-IsTold c reading h = inl refl
throws-IsTold c ended h = h

same_connection :
    (c d : OrderBookClient)
    → d.client.connected ≡ c.client.connected
    → d.state ≡ c.state
    → IsTold c
    → IsTold d
same_connection c d e f (inl off) = inl (e ∙ off)
same_connection c d e f (inr on) = inr (f ∙ on)

handle-AllTold : (c : OrderBookClient) (e : Event) → IsTold c → AllTold (handle c e)
unfolding handle disconnect subscribe unsubscribe reader_throws Tcp.subscribe Tcp.unsubscribe
handle-AllTold c (connects reachable) h = connect-AllTold c reachable
handle-AllTold c (disconnects b) h = inl (disconnect_connected c.client b)
handle-AllTold c loses h = throws-IsTold c c.client.io_thread h
handle-AllTold c (subscribes t w) h =
    same_connection c (subscribe c t w) (send_line_connected c.client _ w) refl h
handle-AllTold c (unsubscribes t w) h =
    same_connection c (unsubscribe c t w) (send_line_connected c.client _ w) refl h

run-AllTold :
    (r : Result OrderBookClient) (es : List Event) → AllTold r → AllTold (r >>= λ c. run c es)
unfolding run
run-AllTold (err e) es h = tt
run-AllTold (ok c) [] h = h
run-AllTold (ok c) (e ∷ es) h = run-AllTold (handle c e) es (handle-AllTold c e h)

AllTold-ok : (r : Result OrderBookClient) (c : OrderBookClient) → r ≡ ok c → AllTold r → IsTold c
AllTold-ok r c e h = subst AllTold e h

-- After any calls on a new client that leave the program running: while the transport is connected,
-- `State` says so.
pub run_state :
    (es : List Event) (c : OrderBookClient)
    → run new_client es ≡ ok c
    → (is_connected c ≡ false) ⊎ (c.state ≡ connected)
unfolding is_connected
run_state es c e = AllTold-ok (run new_client es) c e (run-AllTold (ok new_client) es fresh)
  where
    fresh : IsTold new_client
    fresh = unfold new_client new_tcp_client in inl refl
