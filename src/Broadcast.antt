-- ===== src/Broadcast.antt =====
-- src/snapshots_broadcaster/command_queue.h and broadcaster.h: the commands, the queue, and what the
-- worker thread makes of a command.
pub mod Absorption
pub mod Reach
pub mod Worker
pub mod Stop
use stakan.Base.{
  ℕ, Bool, true, false, List, [], ◌∷◌, ◌++◌, Option, none, some, Result, ok, err, ◌>>=◌, or_fail,
  undefined,
}
use stakan.Wire.{Order, Snapshot, MdUpdate}
use stakan.Wire.Codec.{serialize_snapshot, serialize_md_update}
use stakan.Clients.{ClientList}
use stakan.Clients.Inbox.{Delivery, broadcast_to_subscribed, broadcast_to_certain}

pub data UpdateType : Type 0 where
  add modify delete : UpdateType

-- `::MDUpdate` of command_queue.h, which is another type than `common::MDUpdate`.
pub record TmpMdUpdate : Type 0 where
  pub type_ : UpdateType
  pub is_bid : Bool
  pub order : Order

pub data CommandType : Type 0 where
  send_snapshot send_md_update : CommandType

-- The payload of a command, with its type: `BroadcastSnapshotCommand` or
-- `BroadcastMDUpdateCommand`.
pub data Payload : Type 0 where
  snapshot_data : Snapshot → Payload
  md_update_data : TmpMdUpdate → Payload

pub record BroadcastCommand : Type 0 where
  pub type_ : CommandType
  pub client_id : Option ℕ
  pub payload : Payload

-- The constructors of the two commands.
unfoldable pub broadcast_snapshot_command : Option ℕ → Snapshot → BroadcastCommand
broadcast_snapshot_command id s = record {
  type_ = send_snapshot;
  client_id = id;
  payload = snapshot_data s;
}

unfoldable pub broadcast_md_update_command : Option ℕ → TmpMdUpdate → BroadcastCommand
broadcast_md_update_command id u = record {
  type_ = send_md_update;
  client_id = id;
  payload = md_update_data u;
}

-- `get_data<common::Snapshot>()`
unfoldable pub get_snapshot_data : BroadcastCommand → Option Snapshot
get_snapshot_data cmd = elim cmd.payload [ snapshot_data s ↦ some s | md_update_data u ↦ none ]

-- `get_data<common::MDUpdate>()`: no command holds data of this type.
unfoldable pub get_md_update_data : BroadcastCommand → Option MdUpdate
get_md_update_data cmd = elim cmd.payload [ snapshot_data s ↦ none | md_update_data u ↦ none ]

abbrev pub CommandQueue : Type 0
CommandQueue = List BroadcastCommand

unfoldable pub push : CommandQueue → BroadcastCommand → CommandQueue
push queue cmd = elim cmd.client_id [ none ↦ cmd ∷ [] | some id ↦ queue ++ (cmd ∷ []) ]

-- `none` is the call that waits: the queue is empty.
unfoldable pub pop : CommandQueue → Option (BroadcastCommand × CommandQueue)
pop [] = none
pop (cmd ∷ queue) = some (cmd, queue)

unfoldable pub push_all : CommandQueue → List BroadcastCommand → CommandQueue
unfolding push
push_all queue [] = queue
push_all queue (cmd ∷ cmds) = push_all (push queue cmd) cmds

unfoldable pub handle_send_snapshot_to : ClientList → ℕ → Snapshot → Result (List Delivery)
handle_send_snapshot_to clients id s =
    broadcast_to_certain clients id (serialize_snapshot s) >>= λ sent. ok (sent ∷ [])

unfoldable pub handle_send_snapshot_all : ClientList → Snapshot → Result (List Delivery)
handle_send_snapshot_all clients s = broadcast_to_subscribed clients (serialize_snapshot s)

unfoldable pub handle_send_md_update : ClientList → MdUpdate → Result (List Delivery)
handle_send_md_update clients u = broadcast_to_subscribed clients (serialize_md_update u)

-- What the worker posts for a snapshot.
unfoldable pub post_snapshot : ClientList → Option ℕ → Snapshot → Result (List Delivery)
unfolding handle_send_snapshot_to handle_send_snapshot_all
post_snapshot clients (some id) s = handle_send_snapshot_to clients id s
post_snapshot clients none s = handle_send_snapshot_all clients s

-- The handler that `run` posts for a command, run on the list that the clients then have.
unfoldable pub handle_command : ClientList → BroadcastCommand → Result (List Delivery)
unfolding post_snapshot handle_send_md_update get_snapshot_data get_md_update_data
handle_command clients cmd = elim cmd.type_ [
  | send_snapshot ↦
      or_fail (get_snapshot_data cmd) undefined >>= λ s. post_snapshot clients cmd.client_id s
  | send_md_update ↦
      or_fail (get_md_update_data cmd) undefined >>= λ u. handle_send_md_update clients u
]
