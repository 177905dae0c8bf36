-- ===== src/Tests/Managers.antt =====
-- The manager of the broadcast, and the client's library.
use stakan.Base.{◌≡◌, ◌⊎◌, refl, true, false, List, [], ◌∷◌, ok, err, terminates}
use stakan.TcpClient.{on_connected, on_disconnected}
use stakan.TcpClient.Connection as Tcp
use stakan.TcpClient.Connection.{TcpClient, new_tcp_client, ended, destroy, reader_throws}
use stakan.TcpClient.Lifetime.{loss_is_final}
use stakan.ClientLib.{OrderBookClient, connected, new_client, is_connected}
use stakan.ClientLib as Library
use stakan.ClientLib.States.{run_state}
use stakan.ClientLib.States as States

-- A client whose connection was made and then lost.
abbrev lost : TcpClient
lost = record {
  connected = false;
  io_thread = ended;
  calls = on_connected ∷ on_disconnected ∷ [];
  written = [];
}

loss_reached : Tcp.run new_tcp_client (Tcp.connects true ∷ Tcp.loses ∷ []) ≡ ok lost
unfolding Tcp.run Tcp.handle Tcp.connect reader_throws new_tcp_client
loss_reached = refl

abbrev later : List Tcp.Event
later = Tcp.disconnects true ∷ Tcp.connects false ∷ []

loss_is_final_example :
    (Tcp.run lost later ≡ err terminates)
    ⊎ ((d : TcpClient) × (Tcp.run lost later ≡ ok d)
        × (d.connected ≡ false)
        × (destroy d true ≡ err terminates))
loss_is_final_example = loss_is_final lost later true refl refl

-- The state of the library's client is not told of the loss.
abbrev stale : OrderBookClient
stale = record { tickers = []; client = lost; state = connected }

library_events : List States.Event
library_events = States.connects true ∷ States.loses ∷ []

staleness_reached : States.run new_client library_events ≡ ok stale
unfolding States.run States.handle Library.connect Tcp.connect reader_throws new_tcp_client
    new_client library_events
staleness_reached = refl
