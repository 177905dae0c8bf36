-- ===== src/Console/SnapshotClient.antt =====
-- src/console/snapshot_client.cpp: the client of the console, over the calls that it makes of the
-- client library. Those, and the type of a snapshot, are not in the repository: they are parameters.
use stakan.Base.{
  Output, ℕ, Bool, true, false, not, List, [], ◌∷◌, ◌++◌, Option, none, some, Result, ok, ◌>>=◌,
  or_fail, undefined, if◌then◌else◌,
}

-- `client_lib::ClientConfig`, as it is filled.
pub record Config : Type 0 where
  pub host : List ℕ
  pub port : ℕ
  pub auto_reconnect : Bool

-- A call of the library's callbacks.
pub data Signal (Snapshot : Type 0) : Type 0 where
  on_connected on_disconnected : Signal Snapshot
  on_snapshot : Snapshot → Signal Snapshot
  on_error : List ℕ → Signal Snapshot

-- The calls of the library's client: each gives the client behind it and the callbacks that it made, the
-- oldest first. `works` is what the library does on its own thread; the number is for what happens.
pub record LibraryCalls (Client Snapshot : Type 0) : Type 0 where
  pub set_callbacks : Client → Client
  pub connect : Config → Client → Result (Client × List (Signal Snapshot))
  pub start : Client → Result (Client × List (Signal Snapshot))
  pub disconnect : Client → Result (Client × List (Signal Snapshot))
  pub request_snapshot : Client → Result (Client × List (Signal Snapshot))
  pub is_connected : Client → Bool
  pub works : ℕ → Client → Result (Client × List (Signal Snapshot))

-- `SnapshotConsoleClient`. A null pointer and an empty callback are `none`.
pub record SnapshotConsoleClient (Client Snapshot : Type 0) : Type 0 where
  pub client : Option Client
  pub snapshot_callback : Option (Snapshot → List Output)
  pub error_callback : Option (List ℕ → List Output)
  pub connected : Bool

-- The call of a callback that may be empty.
abbrev pub tell : {A : Type 0} → Option (A → List Output) → A → List Output
tell none a = []
tell (some callback) a = callback a

module _ {Client Snapshot : Type 0} where
  -- The constructor
  abbrev pub new_console_client : Option Client → SnapshotConsoleClient Client Snapshot
  new_console_client client = record {
    client = client;
    snapshot_callback = none;
    error_callback = none;
    connected = false;
  }

  unfoldable pub set_snapshot_callback :
      SnapshotConsoleClient Client Snapshot
      → (Snapshot → List Output)
      → SnapshotConsoleClient Client Snapshot
  set_snapshot_callback c callback = record c { snapshot_callback = some callback }

  unfoldable pub set_error_callback :
      SnapshotConsoleClient Client Snapshot
      → (List ℕ → List Output)
      → SnapshotConsoleClient Client Snapshot
  set_error_callback c callback = record c { error_callback = some callback }

  -- `on_connected`, `on_disconnected`, `on_snapshot`, `on_error`
  unfoldable pub handle_signal :
      SnapshotConsoleClient Client Snapshot
      → Signal Snapshot
      → SnapshotConsoleClient Client Snapshot × List Output
  handle_signal c on_connected = (record c { connected = true }, [])
  handle_signal c on_disconnected = (record c { connected = false }, [])
  handle_signal c (on_snapshot snapshot) = (c, tell c.snapshot_callback snapshot)
  handle_signal c (on_error message) = (c, tell c.error_callback message)

  unfoldable pub handle_signals :
      SnapshotConsoleClient Client Snapshot
      → List (Signal Snapshot)
      → SnapshotConsoleClient Client Snapshot × List Output
  unfolding handle_signal
  handle_signals c [] = (c, [])
  handle_signals c (s ∷ ss) =
      let (d, first) = handle_signal c s in
      let (e, others) = handle_signals d ss in (e, first ++ others)

  -- A call through the pointer to the library's client, with the callbacks that it makes.
  unfoldable pub call :
      (Client → Result (Client × List (Signal Snapshot)))
      → SnapshotConsoleClient Client Snapshot
      → Result (SnapshotConsoleClient Client Snapshot × List Output)
  unfolding handle_signals
  call f c = do
    client ← or_fail c.client undefined
    (later, signals) ← f client
    ok (handle_signals (record c { client = some later }) signals)

module _ {Client Snapshot : Type 0} (calls : LibraryCalls Client Snapshot) where
  open calls use {set_callbacks, connect, start, disconnect, request_snapshot, is_connected}

  -- `connect_to_server`
  unfoldable pub connect_to_server :
      SnapshotConsoleClient Client Snapshot
      → List ℕ
      → ℕ
      → Result (SnapshotConsoleClient Client Snapshot × List Output)
  unfolding call
  connect_to_server c host port = do
    let config : Config = record { host = host; port = port; auto_reconnect = false }
    (d, first) ← call (λ client. connect config (set_callbacks client)) c
    (e, others) ← call start d
    ok (e, first ++ others)

  -- `disconnect_from_server`
  unfoldable pub disconnect_from_server :
      SnapshotConsoleClient Client Snapshot
      → Result (SnapshotConsoleClient Client Snapshot × List Output)
  unfolding call
  disconnect_from_server c = do
    (d, told) ← call disconnect c
    ok (record d { connected = false }, told)

  -- `fetch_snapshot`
  unfoldable pub fetch_snapshot :
      SnapshotConsoleClient Client Snapshot
      → Result (SnapshotConsoleClient Client Snapshot × List Output)
  unfolding call
  fetch_snapshot c = if not c.connected then ok (c, []) else call request_snapshot c

  -- `is_connected`
  unfoldable pub client_is_connected : SnapshotConsoleClient Client Snapshot → Result Bool
  client_is_connected c = or_fail c.client undefined >>= λ client. ok (is_connected client)

  -- The destructor
  unfoldable pub destroy :
      SnapshotConsoleClient Client Snapshot
      → Result (SnapshotConsoleClient Client Snapshot × List Output)
  unfolding disconnect_from_server
  destroy c = if c.connected then disconnect_from_server c else ok (c, [])
