-- ===== src/TcpClient.antt =====
-- src/client.cpp: the reader thread of `TcpClient` and `ProcessMessage`. The socket and
-- `boost::asio::read` are parameters.
pub mod Messages
pub mod Connection
pub mod Lifetime
pub mod Flags
pub mod Callbacks
use stakan.Base.{
  ℕ, zero, suc, Bool, true, false, List, [], ◌∷◌, ◌++◌, Option, none, some, Result, ok, err, ◌>>=◌,
  runtime_error, get_or, ◌==◌, if◌then◌else◌,
}
use stakan.Wire.{Snapshot, MdUpdate}
use stakan.Wire.Codec.{deserialize_snapshot, deserialize_md_update, snapshot_size, md_update_size}

-- A call of the application's callbacks.
pub data Callback : Type 0 where
  on_connected on_disconnected on_error : Callback
  on_top_of_book : Snapshot → Callback
  on_md_update : MdUpdate → Callback

-- What the reader thread leaves behind: the flag `connected` and its calls, the oldest first.
pub record Reader : Type 0 where
  pub connected : Bool
  pub calls : List Callback

module _ {Socket : Type 0} (read : Socket → ℕ → Result (List ℕ × Socket)) where
  -- The case `SNAPSHOT`
  unfoldable pub process_snapshot : Socket → Result (List Callback × Socket)
  process_snapshot socket = do
    (data_, later) ← read socket snapshot_size
    snapshot ← deserialize_snapshot data_
    ok (on_top_of_book snapshot ∷ [], later)

  -- The case `MD_UPDATE`
  unfoldable pub process_md_update : Socket → Result (List Callback × Socket)
  process_md_update socket = do
    (data_, later) ← read socket md_update_size
    md_update ← deserialize_md_update data_
    ok (on_md_update md_update ∷ [], later)

  -- The message's type by its number. `BID` and `ASK` stand under `default`, as all others.
  unfoldable pub process_message : ℕ → Socket → Result (List Callback × Socket)
  unfolding process_snapshot process_md_update
  process_message type_ socket =
      if type_ == 0
      then process_snapshot socket
      else if type_ == 3
      then process_md_update socket
      else err runtime_error

  -- The body of the loop.
  unfoldable pub read_one : Socket → Result (List Callback × Socket)
  unfolding process_message
  read_one socket = do
    (type_buf, later) ← read socket 1
    process_message (get_or type_buf 0 0) later

  -- The loop, for some number of rounds. An exception ends it. `connected`, which it tests, is set before
  -- the thread starts; here no other thread clears it, as `Disconnect` does before it closes the socket.
  unfoldable pub read_loop : ℕ → Socket → Option Reader
  unfolding read_one
  read_loop zero socket = none
  read_loop (suc n) socket = elim (read_one socket) [
    | err e ↦ some (record { connected = false; calls = on_disconnected ∷ [] })
    | ok (calls, later) ↦ elim (read_loop n later) [
      | none ↦ none
      | some r ↦ some (record r { calls = calls ++ r.calls })
    ]
  ]
