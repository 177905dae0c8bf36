-- ===== src/Tests/Messages.antt =====
-- The commands of src/snapshots_broadcaster and the reader of src/client.cpp.
use mathlib.Core.List.{Mem}
use Prim.Native.Nat.{min}
use stakan.Base.{
  sym, ap, ◌∙◌, leb→le, zero, ℕ, suc, ◌≡◌, ◌⊎◌, refl, List, [], ◌∷◌, none, some, true, false, Fault,
  Result, ok, err, runtime_error, undefined, length, length-take, take, drop, leb, if◌then◌else◌,
  Bool-cases, inl, inr, if_true, if_false, arith, replicate,
}
use stakan.Wire.{Snapshot, SnapshotFits, OrderFits, OrdersFit, default_order}
use stakan.Wire.Codec.{deserialize_snapshot}
use stakan.Clients.History.{run, adds_session, subscribes}
use stakan.Clients.{make_client_list, ClientList, get_session}
use stakan.Clients.Inbox.{Delivery}
use stakan.Clients.Broadcasts.{receivers}
use stakan.Clients.Lives.{life}
use stakan.Clients.History.{Call}
use stakan.Base.{map, ◌↔◌}
use mathlib.Core.List.{Nodup}
use stakan.Broadcast.{
  TmpMdUpdate, UpdateType, send_snapshot, snapshot_data, BroadcastCommand, push_all, pop,
  broadcast_snapshot_command, broadcast_md_update_command, handle_command,
}
use stakan.Broadcast.Worker.{
  Broadcaster, new_broadcaster, tests_running, in_pop, Steps, stays, moves, starts, goes_on, pops,
  stops,
}
use stakan.Broadcast.Stop.{all_commands, all_commands-Steps, stop_waits_for_ever}
use stakan.Broadcast.Absorption.{absorption}
use stakan.Broadcast.Reach.{AllDecode, snapshot_reaches_subscribers, command_branches}
use stakan.TcpClient.{on_disconnected, read_loop}
use stakan.TcpClient.Messages.{read_loop_delivers_nothing}

-- A socket that has these bytes, and `boost::asio::read` on it.
stream_read : List ℕ → ℕ → Result (List ℕ × List ℕ)
stream_read bytes n =
    if leb n (length bytes) then ok (take n bytes, drop n bytes) else err runtime_error

length-stream_read :
    (s t : List ℕ) (n : ℕ) (bytes : List ℕ) → stream_read s n ≡ ok (bytes, t) → length bytes ≡ n
unfolding stream_read
length-stream_read s t n bytes e = elim (Bool-cases (leb n (length s))) [
  | inl fits ↦
      let same : take n s ≡ bytes = cc (sym (if_true _ _ fits) ∙ e) in
      sym (ap length same) ∙ length-take n s ∙ at_most n (length s) fits
  | inr short ↦ cc (sym (if_false _ _ short) ∙ e)
]
  where
    at_most : (n m : ℕ) → leb n m ≡ true → min n m ≡ n
    at_most n m h = omega (arith, leb→le n m h)

-- A message of type 0 with the 960 bytes of a snapshot.
abbrev stream : List ℕ
stream = 0 ∷ replicate 960 1

read_loop_delivers_nothing_example :
    read_loop stream_read 3 stream
    ≡ some (record { connected = false; calls = on_disconnected ∷ [] })
read_loop_delivers_nothing_example =
    read_loop_delivers_nothing stream_read length-stream_read 2 stream

abbrev empty_snapshot : Snapshot
empty_snapshot = record {
  top_bids = replicate 20 default_order;
  top_asks = replicate 20 default_order;
}

default_order-OrderFits : OrderFits default_order
default_order-OrderFits = record {
  id_fits = omega arith;
  price_fits = omega arith;
  quantity_fits = omega arith;
}

replicate-OrdersFit : (n : ℕ) → OrdersFit (replicate n default_order)
replicate-OrdersFit zero = tt
replicate-OrdersFit (suc n) = (default_order-OrderFits, replicate-OrdersFit n)

empty_snapshot-SnapshotFits : SnapshotFits empty_snapshot
empty_snapshot-SnapshotFits = record {
  bids_count = refl;
  asks_count = refl;
  bids_fit = replicate-OrdersFit 20;
  asks_fit = replicate-OrdersFit 20;
}

abbrev to_7 : BroadcastCommand
to_7 = record { type_ = send_snapshot; client_id = some 7; payload = snapshot_data empty_snapshot }

abbrev to_all : BroadcastCommand
to_all = record { type_ = send_snapshot; client_id = none; payload = snapshot_data empty_snapshot }

absorption_example :
    (push_all (to_7 ∷ []) (to_7 ∷ []) ≡ to_7 ∷ to_7 ∷ [])
    × (pop (push_all (to_7 ∷ []) (to_7 ∷ to_all ∷ to_7 ∷ [])) ≡ some (to_all, to_7 ∷ []))
absorption_example = absorption (to_7 ∷ []) (to_7 ∷ []) to_all (to_7 ∷ []) refl ((7, refl), tt)

-- Client 7 with session 1, subscribed.
abbrev let_seven_in : List Call
let_seven_in = adds_session 7 (some 1) ∷ subscribes 7 ∷ []

abbrev clients : ClientList
clients = run make_client_list let_seven_in

snapshot_reaches_subscribers_example :
    ((ids : List ℕ) × Nodup ids
      × ((id : ℕ) → Mem id ids ↔ (life id none let_seven_in ≡ some true))
      × ((ds : List Delivery) × (handle_command clients
              (broadcast_snapshot_command none empty_snapshot)
            ≡ ok ds)
          × (map (get_session clients) ids ≡ receivers ds)
          × AllDecode empty_snapshot ds))
    ⊎ ((handle_command clients (broadcast_snapshot_command none empty_snapshot) ≡ err undefined)
        × ((id : ℕ) × (life id none let_seven_in ≡ some true) × (get_session clients id ≡ ok none)))
snapshot_reaches_subscribers_example =
    snapshot_reaches_subscribers let_seven_in empty_snapshot empty_snapshot-SnapshotFits

abbrev change : TmpMdUpdate
change = record {
  type_ = UpdateType.modify;
  is_bid = true;
  order = record { id = 1; price = 2; quantity = 3 };
}

command_branches_example :
    (handle_command clients (broadcast_md_update_command none change) ≡ err undefined)
    × (((p : ℕ) × (get_session clients 7 ≡ ok (some p))
          × (d : Delivery) × (handle_command clients
                (broadcast_snapshot_command (some 7) empty_snapshot)
              ≡ ok (d ∷ []))
          × (d.session ≡ p)
          × (deserialize_snapshot d.message ≡ ok empty_snapshot))
        ⊎ ((get_session clients 7 ≡ ok none)
            × (handle_command clients (broadcast_snapshot_command (some 7) empty_snapshot)
                ≡ err undefined))
        ⊎ ((e : Fault) × (get_session clients 7 ≡ err e)
            × (handle_command clients (broadcast_snapshot_command (some 7) empty_snapshot)
                ≡ err e)))
command_branches_example =
    command_branches clients 7 empty_snapshot none change empty_snapshot-SnapshotFits

-- A stop right after a start, with the worker in `pop`.
abbrev waiting : Broadcaster
waiting = record { running = false; thread = in_pop; joining = true; queue = []; posted = [] }

waiting_reached : Steps new_broadcaster waiting
unfolding new_broadcaster
waiting_reached =
    moves _ _ _ (starts _ refl refl)
      (moves _ _ _ (goes_on _ refl refl) (moves _ _ _ (stops _ refl refl) (stays _)))

stop_waits_for_ever_example : waiting ≡ waiting
stop_waits_for_ever_example = stop_waits_for_ever waiting waiting refl refl refl (stays waiting)

abbrev two_waiting : Broadcaster
two_waiting = record {
  running = true;
  thread = in_pop;
  joining = false;
  queue = to_all ∷ to_7 ∷ [];
  posted = [];
}

abbrev one_posted : Broadcaster
one_posted = record {
  running = true;
  thread = tests_running;
  joining = false;
  queue = to_7 ∷ [];
  posted = to_all ∷ [];
}

one_posted_reached : Steps two_waiting one_posted
unfolding pop
one_posted_reached = moves _ _ _ (pops two_waiting to_all (to_7 ∷ []) refl refl) (stays one_posted)

all_commands-Steps_example : all_commands one_posted ≡ all_commands two_waiting
all_commands-Steps_example = all_commands-Steps two_waiting one_posted one_posted_reached
