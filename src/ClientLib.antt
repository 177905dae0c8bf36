-- ===== src/ClientLib.antt =====
-- client_lib/order_book_client.cpp: `OrderBookClient`, over the TCP client.
pub mod States
pub mod Adapter
use stakan.Base.{
  ℕ, Bool, true, false, List, [], ◌∷◌, Result, ok, err, ◌>>=◌, if◌then◌else◌, same_text,
}
use stakan.TcpClient.Connection.{TcpClient, new_tcp_client, reader_throws}
use stakan.TcpClient.Connection as Tcp

pub data ConnectionState : Type 0 where
  error connected disconnected : ConnectionState

pub record OrderBookClient : Type 0 where
  -- The set `tickers_`, by its texts, the newest first.
  pub tickers : List (List ℕ)
  pub client : TcpClient
  pub state : ConnectionState

unfoldable pub new_client : OrderBookClient
new_client = record { tickers = []; client = new_tcp_client; state = disconnected }

unfoldable pub remove_ticker : List ℕ → List (List ℕ) → List (List ℕ)
unfolding same_text
remove_ticker t [] = []
remove_ticker t (u ∷ us) = let rest = remove_ticker t us in if same_text t u then rest else u ∷ rest

-- `emplace` into the set, which holds a text once.
unfoldable pub add_ticker : List ℕ → List (List ℕ) → List (List ℕ)
unfolding remove_ticker
add_ticker t us = t ∷ remove_ticker t us

-- The test of what the TCP client's `Connect` returned.
abbrev pub after_connect : OrderBookClient → Result (TcpClient × Bool) → Result OrderBookClient
after_connect c (ok (client, true)) = ok (record c { client = client; state = connected })
after_connect c (ok (client, false)) = ok (record c { client = client })
after_connect c (err e) = err e

unfoldable pub connect : OrderBookClient → Bool → Result OrderBookClient
connect c reachable = after_connect c (Tcp.connect c.client reachable)

unfoldable pub disconnect : OrderBookClient → Bool → OrderBookClient
disconnect c by_exception = record c {
  client = Tcp.disconnect c.client by_exception;
  state = disconnected;
}

unfoldable pub subscribe : OrderBookClient → List ℕ → Bool → OrderBookClient
unfolding add_ticker
subscribe c ticker writes =
    let (client, done) = Tcp.subscribe c.client ticker writes in
    record c { client = client; tickers = if done then add_ticker ticker c.tickers else c.tickers }

unfoldable pub unsubscribe : OrderBookClient → List ℕ → Bool → OrderBookClient
unfolding remove_ticker
unsubscribe c ticker writes =
    let (client, done) = Tcp.unsubscribe c.client ticker writes in
    record c {
      client = client;
      tickers = if done then remove_ticker ticker c.tickers else c.tickers;
    }

unfoldable pub is_connected : OrderBookClient → Bool
is_connected c = c.client.connected
