-- ===== src/DomProgram.antt =====
-- src/snapshots_broadcaster/main.cpp: the program that broadcasts test snapshots for ten seconds. The main
-- thread and the thread of `io_context::run` take steps in any order.
pub mod Returns
use stakan.Base.{ℕ, ◌≡◌, ◌⊎◌, Bool, true, false, List, [], ◌∷◌, ◌++◌, Option, none}
use stakan.Wire.{Snapshot}
use stakan.DomManager.{
  DomManager, Command, start_broadcast, stop_broadcast, new_dom_manager, handle, expire, run_ready,
  Wait,
}

-- Where the main thread is: behind the declaration of `dom`, the start of the thread, `dom(br)`, the sleep,
-- `dom(stop)`, `io_context.stop()` and `join()`.
pub data Point : Type 0 where
  declared thread_started start_given slept stop_given context_stopped joined : Point

pub data IoThread : Type 0 where
  not_started runs returned : IoThread

pub record Program : Type 0 where
  pub at : Point
  pub io_thread : IoThread
  -- `io_context`: whether it was stopped, and the commands that were posted and not handled, the oldest first.
  pub stopped : Bool
  pub posted : List Command
  pub dom : DomManager

unfoldable pub new_program : Program
new_program = record {
  at = declared;
  io_thread = not_started;
  stopped = false;
  posted = [];
  dom = new_dom_manager;
}

-- `operator()` of the manager
abbrev pub post : Program → Point → Command → Program
post p at command = record p { at = at; posted = p.posted ++ (command ∷ []) }

-- `run` has no work: no command is posted, no wait is pending, no handler of one is ready.
pub record HasNoWork (p : Program) : Type 0 where
  pub nothing_posted : p.posted ≡ []
  pub nothing_waits : p.dom.timer ≡ none
  pub nothing_ready : p.dom.ready ≡ []

pub data Step : Program → Program → Type 0 where
  starts_thread :
      {p : Program} → p.at ≡ declared → Step p (record p { at = thread_started; io_thread = runs })
  gives_start :
      {p : Program}
      → p.at ≡ thread_started
      → Step p (post p start_given (start_broadcast 3000 true))
  sleeps : {p : Program} → p.at ≡ start_given → Step p (record p { at = slept })
  gives_stop : {p : Program} → p.at ≡ slept → Step p (post p stop_given stop_broadcast)
  stops_context :
      {p : Program} → p.at ≡ stop_given → Step p (record p { at = context_stopped; stopped = true })
  joins :
      {p : Program}
      → p.at ≡ context_stopped
      → p.io_thread ≡ returned
      → Step p (record p { at = joined })
  handles :
      {p : Program} (command : Command) (others : List Command) (taken : Option Snapshot)
      → p.io_thread ≡ runs
      → p.stopped ≡ false
      → p.posted ≡ command ∷ others
      → Step p (record p { posted = others; dom = handle p.dom command taken })
  expires :
      {p : Program}
      → p.io_thread ≡ runs
      → p.stopped ≡ false
      → Step p (record p { dom = expire p.dom })
  ticks :
      {p : Program} (taken : Option Snapshot)
      → p.io_thread ≡ runs
      → p.stopped ≡ false
      → Step p (record p { dom = run_ready p.dom p.dom.ready taken })
  returns :
      {p : Program}
      → p.io_thread ≡ runs
      → (p.stopped ≡ true) ⊎ HasNoWork p
      → Step p (record p { io_thread = returned })

pub data Steps : Program → Program → Type 0 where
  here : {p : Program} → Steps p p
  then : {p q r : Program} → Step p q → Steps q r → Steps p r
