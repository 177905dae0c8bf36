-- ===== src/Server/Pace.antt =====
-- The pace at which a started server broadcasts.
use stakan.Base.{◌≡◌, refl, true, List, [], ◌∷◌, ◌++◌, none, inl, inr}
use stakan.Wire.{Snapshot}
use stakan.DomManager.{
  DomManager, Command, start_broadcast, Event, gets_command, new_dom_manager, step, run, handle,
  start_broadcasting, schedule_next_broadcast,
}
use stakan.DomManager.Ticks.{broadcast_goes_on}
use stakan.DomManager.Progress.{NoStop, Reaches, run-IsOn, tick-Reaches}
use stakan.DomManager.Pace.{IsPaced, StartsAt, run-IsPaced}
use stakan.Server.Listener.{new_server, start_server}

-- The commands that the manager was given, as it handles them.
abbrev pub posted : List Command → List Event
posted [] = []
posted (c ∷ cs) = gets_command c none ∷ posted cs

-- The manager behind the command that a start gives.
abbrev started : DomManager
started = step new_dom_manager (gets_command (start_broadcast 0 true) none)

started-on : started.broadcasting ≡ true
unfolding step handle start_broadcasting schedule_next_broadcast new_dom_manager
started-on = refl

-- A server is started, and then commands and ticks follow, with none to stop the broadcast, and none to
-- start it at another interval than 0. The manager still broadcasts; every wait on its timer is for 0
-- milliseconds; and for any snapshot that its source gives then, ticks of the timer alone lead to where
-- that snapshot is put into the queue for all clients.
pub start_server_without_pause :
    (es : List Event) (s : Snapshot)
    → StartsAt 0 es
    → NoStop es
    → (let m = run new_dom_manager (posted (start_server new_server).commands ++ es) in
        IsPaced 0 m × (m.broadcasting ≡ true) × Reaches s m)
unfolding start_server new_server run
start_server_without_pause es s starts goes =
    let all = posted (start_server new_server).commands ++ es in
    let m = run new_dom_manager all in
    let on : m.broadcasting ≡ true = run-IsOn started es goes started-on in
    (
      run-IsPaced 0 new_dom_manager all (refl, starts)
          (unfold new_dom_manager in record { timer_paced = tt; ready_paced = tt }),
      on,
      elim (broadcast_goes_on all) [
        | inl off ↦ cc (on, off)
        | inr ticks ↦ tick-Reaches s m on ticks
      ],
    )
