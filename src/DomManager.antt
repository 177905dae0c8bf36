-- ===== src/DomManager.antt =====
-- src/snapshots_broadcaster/dom_manager.cpp: the commands of `DOMManager` and its timer. All handlers
-- run on one thread, so each is a step. `OrderBook::GetSnapshot` is not in the source: what it
-- returns is an argument, with `none` also for an exception, which is caught.
pub mod Ticks
pub mod Quiet
pub mod Pace
pub mod Progress
use stakan.Base.{
  ℕ, ◌++◌, Bool, true, false, ◌||◌, not, List, [], ◌∷◌, Option, none, some, if◌then◌else◌,
}
use stakan.Wire.{Order, Snapshot}
use stakan.Broadcast.{CommandQueue, push, broadcast_snapshot_command}

-- `Command`. The interval is a signed `int` in the source; no negative one is modelled.
pub data Command : Type 0 where
  add_order : ℕ → Bool → Order → Command
  remove_order : ℕ → ℕ → Bool → Command
  start_broadcast : ℕ → Bool → Command
  stop_broadcast : Command
  send_snapshot_to_client : ℕ → Bool → Command

-- What a wait on the timer keeps for its handler.
pub record Wait : Type 0 where
  pub interval_ms : ℕ
  pub use_test_broadcast : Bool

pub record DomManager : Type 0 where
  pub broadcasting : Bool
  -- The wait that has not expired.
  pub timer : Option Wait
  -- The waits that expired, or were cancelled, and whose handlers have not run, the oldest first,
  -- with the error of the cancelled ones.
  pub ready : List (Wait × Bool)
  -- The queue of the broadcaster.
  pub queue : CommandQueue

unfoldable pub new_dom_manager : DomManager
new_dom_manager = record { broadcasting = false; timer = none; ready = []; queue = [] }

-- A cancelled wait ends with an error.
unfoldable pub cancel_wait : Option Wait → List (Wait × Bool) → List (Wait × Bool)
cancel_wait none ready = ready
cancel_wait (some w) ready = ready ++ ((w, true) ∷ [])

-- `expires_after`, which cancels the wait before, and `async_wait`.
unfoldable pub schedule_next_broadcast : DomManager → Wait → DomManager
unfolding cancel_wait
schedule_next_broadcast m w =
    if not m.broadcasting
    then m
    else record m { timer = some w; ready = cancel_wait m.timer m.ready }

unfoldable pub start_broadcasting : DomManager → Wait → DomManager
unfolding schedule_next_broadcast
start_broadcasting m w =
    if m.broadcasting then m else schedule_next_broadcast (record m { broadcasting = true }) w

unfoldable pub stop_broadcasting : DomManager → DomManager
unfolding cancel_wait
stop_broadcasting m = record m {
  broadcasting = false;
  timer = none;
  ready = cancel_wait m.timer m.ready;
}

-- The snapshot for the client of an id, or for all.
unfoldable pub enqueue_snapshot : DomManager → Option ℕ → Option Snapshot → DomManager
enqueue_snapshot m id none = m
enqueue_snapshot m id (some s) = record m { queue = push m.queue (broadcast_snapshot_command id s) }

unfoldable pub send_snapshot : DomManager → Option Snapshot → DomManager
unfolding enqueue_snapshot
send_snapshot m taken = enqueue_snapshot m none taken

unfoldable pub send_snapshot_by_client_id : DomManager → ℕ → Option Snapshot → DomManager
unfolding enqueue_snapshot
send_snapshot_by_client_id m id taken = enqueue_snapshot m (some id) taken

-- `Handle`
unfoldable pub handle : DomManager → Command → Option Snapshot → DomManager
handle m (add_order id is_bid order) taken = m
handle m (remove_order id order_id is_bid) taken = m
handle m stop_broadcast taken = stop_broadcasting m
handle m (send_snapshot_to_client id test) taken = send_snapshot_by_client_id m id taken
handle m (start_broadcast interval test) taken =
    if m.broadcasting
    then m
    else start_broadcasting m (record { interval_ms = interval; use_test_broadcast = test })

-- The timer expires.
abbrev pub expire_wait : DomManager → Option Wait → DomManager
expire_wait m none = m
expire_wait m (some w) = record m { timer = none; ready = m.ready ++ ((w, false) ∷ []) }

unfoldable pub expire : DomManager → DomManager
expire m = expire_wait m m.timer

-- The handler of a wait.
unfoldable pub tick : DomManager → Wait → Bool → Option Snapshot → DomManager
unfolding send_snapshot schedule_next_broadcast
tick m w error taken =
    if error || not m.broadcasting then m else schedule_next_broadcast (send_snapshot m taken) w

-- The oldest handler that is ready runs.
unfoldable pub run_ready : DomManager → List (Wait × Bool) → Option Snapshot → DomManager
unfolding tick
run_ready m [] taken = m
run_ready m ((w, error) ∷ rest) taken = tick (record m { ready = rest }) w error taken

pub data Event : Type 0 where
  gets_command : Command → Option Snapshot → Event
  expires : Event
  runs_handler : Option Snapshot → Event

unfoldable pub step : DomManager → Event → DomManager
step m (gets_command c taken) = handle m c taken
step m expires = expire m
step m (runs_handler taken) = run_ready m m.ready taken

unfoldable pub run : DomManager → List Event → DomManager
run m [] = m
run m (e ∷ es) = run (step m e) es
