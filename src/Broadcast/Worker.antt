-- ===== src/Broadcast/Worker.antt =====
-- The worker thread of src/snapshots_broadcaster/broadcaster.h, with `start` and `stop`, as a relation
-- between states: which step comes next is open.
use stakan.Base.{◌≡◌, Bool, true, false, List, [], ◌∷◌, ◌++◌, some}
use stakan.Broadcast.{BroadcastCommand, CommandQueue, push, pop}

-- Where the thread is: none was started, it tests `running_`, it is in `pop`, or it has returned.
pub data Thread : Type 0 where
  no_thread tests_running in_pop returned : Thread

pub record Broadcaster : Type 0 where
  pub running : Bool
  pub thread : Thread
  -- `stop` waits in `join`.
  pub joining : Bool
  pub queue : CommandQueue
  -- The commands whose handlers were posted, the oldest first.
  pub posted : List BroadcastCommand

unfoldable pub new_broadcaster : Broadcaster
new_broadcaster = record {
  running = false;
  thread = no_thread;
  joining = false;
  queue = [];
  posted = [];
}

-- The steps of the worker and of the thread that calls `start` and `stop`.
pub data Step : Broadcaster → Broadcaster → Type 0 where
  starts :
      (b : Broadcaster)
      → b.running ≡ false
      → b.thread ≡ no_thread
      → Step b (record b { running = true; thread = tests_running })
  goes_on :
      (b : Broadcaster)
      → b.thread ≡ tests_running
      → b.running ≡ true
      → Step b (record b { thread = in_pop })
  returns :
      (b : Broadcaster)
      → b.thread ≡ tests_running
      → b.running ≡ false
      → Step b (record b { thread = returned })
  pops :
      (b : Broadcaster) (cmd : BroadcastCommand) (rest : CommandQueue)
      → b.thread ≡ in_pop
      → pop b.queue ≡ some (cmd, rest)
      → Step b (record b { thread = tests_running; queue = rest; posted = b.posted ++ (cmd ∷ []) })
  stops :
      (b : Broadcaster)
      → b.running ≡ true
      → b.joining ≡ false
      → Step b (record b { running = false; joining = true })
  joins :
      (b : Broadcaster)
      → b.joining ≡ true
      → b.thread ≡ returned
      → Step b (record b { thread = no_thread; joining = false })

-- Any number of steps, with no command put into the queue in between.
pub data Steps : Broadcaster → Broadcaster → Type 0 where
  stays : (b : Broadcaster) → Steps b b
  moves : (a b c : Broadcaster) → Step a b → Steps b c → Steps a c

-- `enqueue`
unfoldable pub enqueue : Broadcaster → BroadcastCommand → Broadcaster
enqueue b cmd = record b { queue = push b.queue cmd }
