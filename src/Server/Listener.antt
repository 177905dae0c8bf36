-- ===== src/Server/Listener.antt =====
-- src/TCP_server/tcpserver.cpp: StartServer, StopServer, DoAccept, OnAccept and SendUpdateMessage, with
-- the lives of the sessions. A session lives while a `shared_ptr` to it is held: by the list of clients,
-- or by a call that runs. Its own handlers hold weak pointers.
use stakan.Base.{
  ℕ, Bool, true, false, ◌||◌, List, [], ◌∷◌, ◌++◌, none, some, Result, ok, ◌>>=◌, if◌then◌else◌,
  ◌==◌,
}
use stakan.Clients.{ClientList, SessionPtr, make_client_list, get_all_sessions}
use stakan.Clients.Inbox.{Delivery, broadcast_to_subscribed}
use stakan.DomManager as Dom
use stakan.Server.{Effect, stops, handle_message, handle_disconnect}

-- `TCPServer`. `waits`: an `async_accept` is pending. `live`: the sessions that exist. `commands`: what
-- was given to `dom_manager_`. `started`: the sessions that began to read; the read of one that ended is
-- still pending, and its handler does nothing.
pub record TcpServer : Type 0 where
  pub is_open : Bool
  pub waits : Bool
  pub clients : ClientList
  pub live : List ℕ
  pub started : List ℕ
  pub commands : List Dom.Command

-- The constructor
unfoldable pub new_server : TcpServer
new_server = record {
  is_open = true;
  waits = false;
  clients = make_client_list;
  live = [];
  started = [];
  commands = [];
}

-- The list of clients holds a session.
unfoldable pub is_one_of : ℕ → List SessionPtr → Bool
is_one_of session [] = false
is_one_of session (none ∷ others) = is_one_of session others
is_one_of session (some s ∷ others) = s == session || is_one_of session others

unfoldable pub without : ℕ → List ℕ → List ℕ
without session [] = []
without session (s ∷ others) =
    let rest = without session others in if s == session then rest else s ∷ rest

-- A pointer goes out of scope: its session ends, unless it is a client's.
unfoldable pub release : TcpServer → SessionPtr → TcpServer
unfolding is_one_of without
release s none = s
release s (some session) =
    if is_one_of session (get_all_sessions s.clients)
    then s
    else record s { live = without session s.live }

-- `DoAccept`
unfoldable pub do_accept : TcpServer → TcpServer
do_accept s = record s { waits = true }

-- `OnAccept`; the number is the address of the session that is made, and `Start` makes it read.
unfoldable pub on_accept : TcpServer → ℕ → Bool → TcpServer × SessionPtr
on_accept s session error =
    if error
    then (s, none)
    else (record s { live = session ∷ s.live; started = session ∷ s.started }, some session)

-- The test at the end of the handler in `DoAccept`
abbrev pub accept_again : TcpServer → TcpServer
accept_again s = if s.is_open then do_accept s else s

-- The handler in `DoAccept`, which does not use the pointer that `OnAccept` returns.
unfoldable pub accepted : TcpServer → ℕ → Bool → TcpServer
unfolding on_accept release
accepted s session error =
    let (made, returned) = on_accept (record s { waits = false }) session error in
    accept_again (release made returned)

-- `StartServer`. The interval of `StartBroadcastCmd{}` has no default: it is 0 milliseconds.
unfoldable pub start_server : TcpServer → TcpServer
unfolding do_accept
start_server s = record (do_accept s) { commands = s.commands ++ (Dom.start_broadcast 0 true ∷ []) }

unfoldable pub stop_sessions : List SessionPtr → List Effect
stop_sessions [] = []
stop_sessions (none ∷ others) = stop_sessions others
stop_sessions (some session ∷ others) = stops session ∷ stop_sessions others

-- `StopServer`
unfoldable pub stop_server : TcpServer → TcpServer × List Effect
unfolding stop_sessions
stop_server s = (record s { is_open = false }, stop_sessions (get_all_sessions s.clients))

-- `SendUpdateMessage`
unfoldable pub send_update_message : TcpServer → List ℕ → Result (List Delivery)
unfolding broadcast_to_subscribed
send_update_message s message = broadcast_to_subscribed s.clients message

-- What happens: a connection is accepted, or the wait for one fails; a session reads a frame, or
-- finds its connection lost; the server is stopped.
pub data Event : Type 0 where
  accepts : ℕ → Bool → Event
  reads : ℕ → List ℕ → Event
  loses : ℕ → Event
  stops_server : Event

-- Whether the session exists, as its handlers ask before they run.
unfoldable pub is_live : ℕ → List ℕ → Bool
is_live session [] = false
is_live session (s ∷ others) = s == session || is_live session others

-- Behind a handler of a session the pointer that it held goes out of scope.
abbrev after_message : TcpServer → ℕ → ClientList × List Effect → Result TcpServer
after_message s session (clients, effects) =
    ok (release (record s { clients = clients }) (some session))

abbrev after_loss : TcpServer → ℕ → ClientList → Result TcpServer
after_loss s session clients = ok (release (record s { clients = clients }) (some session))

unfoldable pub step : TcpServer → Event → Result TcpServer
unfolding accepted release stop_server is_live
step s (accepts session error) = ok (if s.waits then accepted s session error else s)
step s (reads session frame) =
    if is_live session s.live
    then (handle_message s.clients frame session >>= after_message s session)
    else ok s
step s (loses session) =
    if is_live session s.live
    then (handle_disconnect s.clients session >>= after_loss s session)
    else ok s
step s stops_server = ok (stop_server s).0

unfoldable pub run : TcpServer → List Event → Result TcpServer
unfolding step
run s [] = ok s
run s (e ∷ es) = step s e >>= λ later. run later es
