-- ===== src/Tests/Listeners.antt =====
-- The server from its start on.
use stakan.Base.{◌≡◌, refl, true, false, List, [], ◌∷◌, ◌++◌, none, ok, codes}
use stakan.Clients.{make_client_list, get_all_sessions}
use stakan.Server.Listener.{
  TcpServer, new_server, start_server, Event, accepts, reads, loses, stops_server, run,
}
use stakan.Server.Lifetimes.{no_session_lives}
use stakan.Server.Pace.{posted, start_server_without_pause}
use stakan.DomManager.{new_dom_manager, expires, runs_handler}
use stakan.DomManager as Dom
use stakan.DomManager.Progress.{Reaches}
use stakan.Base.{true}
use stakan.Wire.{Snapshot}
use stakan.DomManager.Pace.{IsPaced}

-- A client that connects and says hello, another one, and the stop.
abbrev day : List Event
day =
    accepts 5 false
    ∷ reads 5 (codes "HELLO 7\n")
    ∷ accepts 6 true
    ∷ accepts 8 false
    ∷ loses 8
    ∷ stops_server
    ∷ accepts 9 true
    ∷ []

day_ends :
    run (start_server new_server) day
    ≡ ok (record {
      is_open = false;
      waits = false;
      clients = make_client_list;
      live = [];
      started = 8 ∷ 5 ∷ [];
      commands = Dom.start_broadcast 0 true ∷ [];
    })
unfolding run start_server new_server make_client_list get_all_sessions
day_ends = refl

no_session_lives_example :
    (s : TcpServer) × (run (start_server new_server) day ≡ ok s)
    × (s.live ≡ [])
    × (s.clients ≡ make_client_list)
    × (s.is_open ≡ true → s.waits ≡ true)
no_session_lives_example = no_session_lives day

abbrev ticks : List Dom.Event
ticks = expires ∷ runs_handler none ∷ expires ∷ []

abbrev empty_snapshot : Snapshot
empty_snapshot = record { top_bids = []; top_asks = [] }

start_server_without_pause_example :
    (let m = Dom.run new_dom_manager (posted (start_server new_server).commands ++ ticks) in
      IsPaced 0 m × (m.broadcasting ≡ true) × Reaches empty_snapshot m)
start_server_without_pause_example = start_server_without_pause ticks empty_snapshot tt tt
