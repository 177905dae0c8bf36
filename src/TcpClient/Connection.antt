-- ===== src/TcpClient/Connection.antt =====
-- src/client.cpp: `Connect`, `Disconnect`, `Subscribe`, `Unsubscribe` and the destructor of `TcpClient`,
-- with the thread that `Connect` starts. What the network does is an argument of each call.
use stakan.Base.{
  ℕ, Bool, true, false, not, List, [], ◌∷◌, ◌++◌, Result, ok, err, ◌>>=◌, terminates, if◌then◌else◌,
  codes,
}
use stakan.TcpClient.{Callback, on_connected, on_disconnected, on_error}

-- `io_thread`: no thread, one that reads, or one that has ended and was not joined. The last two are
-- joinable.
pub data Thread : Type 0 where
  no_thread reading ended : Thread

pub record TcpClient : Type 0 where
  pub connected : Bool
  pub io_thread : Thread
  pub calls : List Callback
  -- What was written to the socket.
  pub written : List (List ℕ)

unfoldable pub new_tcp_client : TcpClient
new_tcp_client = record { connected = false; io_thread = no_thread; calls = []; written = [] }

abbrev pub call : TcpClient → Callback → TcpClient
call c f = record c { calls = c.calls ++ (f ∷ []) }

-- `io_thread = std::thread(...)`, which ends the program if the thread before is joinable.
abbrev pub start_thread : TcpClient → Thread → Result (TcpClient × Bool)
start_thread c no_thread = ok (record c { io_thread = reading }, true)
start_thread c reading = err terminates
start_thread c ended = err terminates

-- `reachable`: `resolve` and `connect` do not throw.
unfoldable pub connect : TcpClient → Bool → Result (TcpClient × Bool)
connect c reachable =
    if c.connected
    then ok (c, true)
    else if reachable
    then start_thread (call (record c { connected = true }) on_connected) c.io_thread
    else ok (call c on_error, false)

-- The reader thread leaves its loop by an exception.
abbrev pub thread_throws : TcpClient → Thread → TcpClient
thread_throws c no_thread = c
thread_throws c reading = call (record c { connected = false; io_thread = ended }) on_disconnected
thread_throws c ended = c

unfoldable pub reader_throws : TcpClient → TcpClient
reader_throws c = thread_throws c c.io_thread

-- `join` of a thread that reads: the socket is closed, so it ends, by an exception or by the flag.
abbrev pub join : TcpClient → Thread → Bool → TcpClient
join c no_thread by_exception = c
join c reading by_exception =
    let joined = record c { io_thread = no_thread } in
    if by_exception then call joined on_disconnected else joined
join c ended by_exception = record c { io_thread = no_thread }

unfoldable pub disconnect : TcpClient → Bool → TcpClient
disconnect c by_exception =
    if c.connected
    then call (join (record c { connected = false }) c.io_thread by_exception) on_disconnected
    else c

-- The text that is written, when `write` does not throw.
unfoldable pub send_line : TcpClient → List ℕ → Bool → TcpClient × Bool
send_line c line writes =
    if not c.connected
    then (c, false)
    else if writes
    then (record c { written = c.written ++ (line ∷ []) }, true)
    else (call c on_error, false)

unfoldable pub subscribe : TcpClient → List ℕ → Bool → TcpClient × Bool
unfolding send_line
subscribe c symbol writes = send_line c (codes "SUBSCRIBE " ++ (symbol ++ (10 ∷ []))) writes

unfoldable pub unsubscribe : TcpClient → List ℕ → Bool → TcpClient × Bool
unfolding send_line
unsubscribe c symbol writes = send_line c (codes "UNSUBSCRIBE " ++ (symbol ++ (10 ∷ []))) writes

-- `~TcpClient`, and that of the thread in it, which ends the program if it is joinable.
abbrev pub drop_thread : Thread → Result (Unit {0})
drop_thread no_thread = ok tt
drop_thread reading = err terminates
drop_thread ended = err terminates

unfoldable pub destroy : TcpClient → Bool → Result (Unit {0})
unfolding disconnect
destroy c by_exception = drop_thread (disconnect c by_exception).io_thread

-- The calls and the end of the thread, in any order.
pub data Event : Type 0 where
  connects disconnects : Bool → Event
  loses : Event
  subscribes unsubscribes : List ℕ → Bool → Event

unfoldable pub handle : TcpClient → Event → Result TcpClient
handle c (connects reachable) = connect c reachable >>= λ r. ok r.0
handle c (disconnects by_exception) = ok (disconnect c by_exception)
handle c loses = ok (reader_throws c)
handle c (subscribes symbol writes) = ok (subscribe c symbol writes).0
handle c (unsubscribes symbol writes) = ok (unsubscribe c symbol writes).0

unfoldable pub run : TcpClient → List Event → Result TcpClient
run c [] = ok c
run c (e ∷ es) = handle c e >>= λ d. run d es
