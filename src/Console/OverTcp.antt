-- ===== src/Console/OverTcp.antt =====
-- The TCP client as the client that the console calls.
use mathlib.Core.Path.{subst}
use stakan.Base.{
  ℕ, zero, suc, ◌≡◌, refl, ◌∙◌, sym, Bool, true, false, List, [], ◌∷◌, Result, ok, err,
}
use stakan.Wire.{Snapshot}
use stakan.TcpClient.{Callback}
use stakan.TcpClient as Transport
use stakan.TcpClient.Connection.{TcpClient, connect, disconnect, reader_throws}
use stakan.TcpClient.Callbacks.{
  last_call, IsHonest, AllHonest, connect-AllHonest, reader_throws-IsHonest,
}
use stakan.TcpClient.Flags.{disconnect_connected}
use stakan.Console.SnapshotClient.{
  Config, Signal, on_connected, on_disconnected, on_snapshot, on_error, LibraryCalls,
}
use stakan.Console.Agreement.{last_told, TellsAll}

-- A callback of the transport as the callback of the console; `CallbacksAdapter` has none for an update.
-- The text of an error is left out.
abbrev signals : List Callback → List (Signal Snapshot)
signals [] = []
signals (Transport.on_connected ∷ fs) = on_connected ∷ signals fs
signals (Transport.on_disconnected ∷ fs) = on_disconnected ∷ signals fs
signals (Transport.on_error ∷ fs) = on_error [] ∷ signals fs
signals (Transport.on_top_of_book s ∷ fs) = on_snapshot s ∷ signals fs
signals (Transport.on_md_update u ∷ fs) = signals fs

abbrev no_calls : TcpClient → TcpClient
no_calls c = record c { calls = [] }

abbrev with_signals : Result (TcpClient × Bool) → Result (TcpClient × List (Signal Snapshot))
with_signals (ok (c, done)) = ok (c, signals c.calls)
with_signals (err e) = err e

abbrev library_works : ℕ → TcpClient → Result (TcpClient × List (Signal Snapshot))
library_works zero c = let d = reader_throws (no_calls c) in ok (d, signals d.calls)
library_works (suc n) c = ok (c, [])

-- What the network does is given by `reachable` and `by_exception`. The transport starts its thread in
-- `Connect`, and has no request for a snapshot.
abbrev pub tcp_calls : (Config → Bool) → Bool → LibraryCalls TcpClient Snapshot
tcp_calls reachable by_exception = record {
  set_callbacks = λ c. c;
  connect = λ config c. with_signals (connect (no_calls c) (reachable config));
  start = λ c. ok (c, []);
  disconnect = λ c. let d = disconnect (no_calls c) by_exception in ok (d, signals d.calls);
  request_snapshot = λ c. ok (c, []);
  is_connected = λ c. c.connected;
  works = library_works;
}

last_told-signals : (on : Bool) (fs : List Callback) → last_told on (signals fs) ≡ last_call on fs
unfolding last_told last_call
last_told-signals on [] = refl
last_told-signals on (Transport.on_connected ∷ fs) = last_told-signals true fs
last_told-signals on (Transport.on_disconnected ∷ fs) = last_told-signals false fs
last_told-signals on (Transport.on_error ∷ fs) = last_told-signals on fs
last_told-signals on (Transport.on_top_of_book s ∷ fs) = last_told-signals on fs
last_told-signals on (Transport.on_md_update u ∷ fs) = last_told-signals on fs

abbrev IsDown : Result (TcpClient × List (Signal Snapshot)) → Type 0
IsDown (ok (d, ss)) = d.connected ≡ false
IsDown (err e) = Unit {0}

abbrev Told : Bool → Result (TcpClient × List (Signal Snapshot)) → Type 0
Told on (ok (d, ss)) = d.connected ≡ last_told on ss
Told on (err e) = Unit {0}

signals-Told : (on : Bool) (d : TcpClient) → IsHonest on d → Told on (ok (d, signals d.calls))
signals-Told on d h = h ∙ sym (last_told-signals on d.calls)

with_signals-Told :
    (on : Bool) (r : Result (TcpClient × Bool)) → AllHonest on r → Told on (with_signals r)
with_signals-Told on (ok (c, done)) h = signals-Told on c h
with_signals-Told on (err e) h = tt

no_calls-IsHonest : (c : TcpClient) → IsHonest c.connected (no_calls c)
unfolding last_call
no_calls-IsHonest c = refl

nothing-Told : (c : TcpClient) → Told c.connected (ok (c, []))
unfolding last_told
nothing-Told c = refl

library_works-Told : (n : ℕ) (c : TcpClient) → Told c.connected (library_works n c)
library_works-Told zero c =
    signals-Told c.connected (reader_throws (no_calls c))
      (reader_throws-IsHonest c.connected (no_calls c) (no_calls-IsHonest c))
library_works-Told (suc n) c = nothing-Told c

-- The transport tells of each change of its connection.
pub tcp_calls-TellsAll :
    (reachable : Config → Bool) (by_exception : Bool) → TellsAll (tcp_calls reachable by_exception)
tcp_calls-TellsAll reachable by_exception = record {
  connect_tells = λ config c d ss e. subst (Told c.connected) e (
      with_signals-Told c.connected (connect (no_calls c) (reachable config))
        (connect-AllHonest c.connected (no_calls c) (reachable config) (no_calls-IsHonest c)));
  start_tells = λ c d ss e. subst (Told c.connected) e (nothing-Told c);
  request_tells = λ c d ss e. subst (Told c.connected) e (nothing-Told c);
  works_tells = λ n c d ss e. subst (Told c.connected) e (library_works-Told n c);
  disconnect_ends = λ c d ss e. subst IsDown e (disconnect_connected (no_calls c) by_exception);
}
