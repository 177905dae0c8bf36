-- ===== src/ClientProgram.antt =====
-- src/main.cpp of the client: the program that connects, subscribes, waits and leaves, over `TcpClient`. What it
-- prints is left out: which of its callbacks are called is kept.
pub mod Endings
use stakan.Base.{ℕ, Bool, true, false, List, Result, ok, ◌>>=◌, if◌then◌else◌, codes}
use stakan.TcpClient.{Callback}
use stakan.TcpClient.Connection.{
  TcpClient, new_tcp_client, connect, disconnect, subscribe, unsubscribe, reader_throws, destroy,
}

-- What the network does: the server can be reached, each of the two lines can be written, the reader thread
-- ends by an exception while the program waits, and it ends by an exception when the socket is closed.
pub record Network : Type 0 where
  pub reachable : Bool
  pub subscribe_writes : Bool
  pub thread_ends : Bool
  pub unsubscribe_writes : Bool
  pub close_throws : Bool

-- The end of `main`, which destroys the client: the value that it returns, and the callbacks that were
-- called. The destructor calls none then, since the client is not connected.
abbrev leave : TcpClient → Bool → ℕ → Result (ℕ × List Callback)
leave client close_throws value = destroy client close_throws >>= λ _. ok (value, client.calls)

-- `main` behind `Connect`
unfoldable pub stay : Network → TcpClient → Bool → Result (ℕ × List Callback)
stay network client false = leave client network.close_throws 1
stay network client true =
    let subscribed = (subscribe client (codes "EURUSD") network.subscribe_writes).0 in
    let waited = if network.thread_ends then reader_throws subscribed else subscribed in
    let unsubscribed = (unsubscribe waited (codes "EURUSD") network.unsubscribe_writes).0 in
    leave (disconnect unsubscribed network.close_throws) network.close_throws 0

-- `main`
unfoldable pub main : Network → Result (ℕ × List Callback)
unfolding stay
main network = do
  (client, connected) ← connect new_tcp_client network.reachable
  stay network client connected
