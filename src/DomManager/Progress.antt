-- ===== src/DomManager/Progress.antt =====
-- A manager that broadcasts goes on until it is told to stop, and a snapshot follows the other.
use mathlib.Core.Path.{subst}
use stakan.Base.{
  ℕ, ◌≡◌, refl, sym, ap, ◌∙◌, ◌⊎◌, Bool, true, false, not, List, [], ◌∷◌, ◌++◌, Option, none, some,
  if_true, if_false, inl, inr,
}
use stakan.Wire.{Snapshot}
use stakan.Broadcast.{push, broadcast_snapshot_command}
use stakan.DomManager.{
  DomManager, Wait, add_order, remove_order, start_broadcast, stop_broadcast,
  send_snapshot_to_client, schedule_next_broadcast, enqueue_snapshot, send_snapshot,
  send_snapshot_by_client_id, handle, expire_wait, expire, tick, run_ready, Event, gets_command,
  expires, runs_handler, step, run,
}
use stakan.DomManager.Ticks.{any_expired, any_expired-append}

-- No command to stop is among these.
abbrev pub NoStop : List Event → Type 0
NoStop [] = Unit {0}
NoStop (gets_command stop_broadcast taken ∷ es) = ⊥
NoStop (gets_command (start_broadcast interval test) taken ∷ es) = NoStop es
NoStop (gets_command (add_order id is_bid order) taken ∷ es) = NoStop es
NoStop (gets_command (remove_order id order_id is_bid) taken ∷ es) = NoStop es
NoStop (gets_command (send_snapshot_to_client id test) taken ∷ es) = NoStop es
NoStop (expires ∷ es) = NoStop es
NoStop (runs_handler taken ∷ es) = NoStop es

-- No command at all: the timer expires, and handlers of waits run.
abbrev pub OnlyTicks : List Event → Type 0
OnlyTicks [] = Unit {0}
OnlyTicks (gets_command c taken ∷ es) = ⊥
OnlyTicks (expires ∷ es) = OnlyTicks es
OnlyTicks (runs_handler taken ∷ es) = OnlyTicks es

abbrev IsOn : DomManager → Type 0
IsOn m = m.broadcasting ≡ true

schedule-IsOn : (m : DomManager) (w : Wait) → IsOn m → IsOn (schedule_next_broadcast m w)
unfolding schedule_next_broadcast
schedule-IsOn m w on = subst IsOn (sym (if_false _ _ (ap not on))) on

enqueue-IsOn :
    (m : DomManager) (id : Option ℕ) (taken : Option Snapshot)
    → IsOn m
    → IsOn (enqueue_snapshot m id taken)
unfolding enqueue_snapshot
enqueue-IsOn m id none on = on
enqueue-IsOn m id (some s) on = on

tick-IsOn :
    (m : DomManager) (w : Wait) (error : Bool) (taken : Option Snapshot)
    → IsOn m
    → IsOn (tick m w error taken)
unfolding tick send_snapshot
tick-IsOn m w true taken on = on
tick-IsOn m w false taken on =
    subst IsOn (sym (if_false _ _ (ap not on)))
      (schedule-IsOn (enqueue_snapshot m none taken) w (enqueue-IsOn m none taken on))

run_ready-IsOn :
    (m : DomManager) (ready : List (Wait × Bool)) (taken : Option Snapshot)
    → IsOn m
    → IsOn (run_ready m ready taken)
unfolding run_ready
run_ready-IsOn m [] taken on = on
run_ready-IsOn m ((w, error) ∷ rest) taken on =
    tick-IsOn (record m { ready = rest }) w error taken on

expire-IsOn : (m : DomManager) (o : Option Wait) → IsOn m → IsOn (expire_wait m o)
expire-IsOn m none on = on
expire-IsOn m (some w) on = on

start-IsOn :
    (m : DomManager) (interval : ℕ) (test : Bool) (taken : Option Snapshot)
    → IsOn m
    → IsOn (handle m (start_broadcast interval test) taken)
unfolding handle
start-IsOn m interval test taken on = subst IsOn (sym (if_true _ _ on)) on

-- Only a command to stop ends the broadcast.
pub run-IsOn :
    (m : DomManager) (es : List Event)
    → NoStop es
    → m.broadcasting ≡ true
    → (run m es).broadcasting ≡ true
unfolding run step handle send_snapshot_by_client_id expire
run-IsOn m [] h on = on
run-IsOn m (gets_command stop_broadcast taken ∷ es) h on = absurd h
run-IsOn m (gets_command (start_broadcast interval test) taken ∷ es) h on =
    run-IsOn (handle m (start_broadcast interval test) taken) es h
      (start-IsOn m interval test taken on)
run-IsOn m (gets_command (add_order id is_bid order) taken ∷ es) h on = run-IsOn m es h on
run-IsOn m (gets_command (remove_order id order_id is_bid) taken ∷ es) h on = run-IsOn m es h on
run-IsOn m (gets_command (send_snapshot_to_client id test) taken ∷ es) h on =
    run-IsOn _ es h (enqueue-IsOn m (some id) taken on)
run-IsOn m (expires ∷ es) h on = run-IsOn _ es h (expire-IsOn m m.timer on)
run-IsOn m (runs_handler taken ∷ es) h on = run-IsOn _ es h (run_ready-IsOn m m.ready taken on)

module _ (s : Snapshot) where
  -- Some ticks put the snapshot into the queue, for all.
  abbrev pub Reaches : DomManager → Type 0
  Reaches m =
      (ticks : List Event) × OnlyTicks ticks
      × ((run m ticks).queue ≡ push m.queue (broadcast_snapshot_command none s))

  tick-queue :
      (m : DomManager) (w : Wait)
      → IsOn m
      → (tick m w false (some s)).queue ≡ push m.queue (broadcast_snapshot_command none s)
  unfolding tick schedule_next_broadcast send_snapshot enqueue_snapshot
  tick-queue m w on =
      ap (λ (n : DomManager). n.queue) (if_false _ _ (ap not on))
      ∙ ap (λ (n : DomManager). n.queue) (if_false _ _ (ap not on))

  -- The handlers that are ready run, the oldest first, until that of a wait that expired.
  expired-Reaches :
      (m : DomManager) (ready : List (Wait × Bool))
      → m.ready ≡ ready
      → IsOn m
      → any_expired ready ≡ true
      → Reaches m
  unfolding run step run_ready tick
  expired-Reaches m [] e on expired = cc expired
  expired-Reaches m ((w, false) ∷ rest) e on expired = (
    runs_handler (some s) ∷ [],
    tt,
    ap (λ r. (run_ready m r (some s)).queue) e ∙ tick-queue (record m { ready = rest }) w on,
  )
  expired-Reaches m ((w, true) ∷ rest) e on expired =
      let (ticks, only, reached) =
        expired-Reaches (record m { ready = rest }) rest refl on expired in
      (
        runs_handler none ∷ ticks,
        only,
        ap (λ r. (run (run_ready m r none) ticks).queue) e ∙ reached,
      )

  -- A wait on the timer expires first.
  pub tick-Reaches :
      (m : DomManager)
      → m.broadcasting ≡ true
      → ((w : Wait) × (m.timer ≡ some w)) ⊎ (any_expired m.ready ≡ true)
      → Reaches m
  unfolding run step expire
  tick-Reaches m on (inr expired) = expired-Reaches m m.ready refl on expired
  tick-Reaches m on (inl (w, waits)) =
      let later : DomManager = record m { timer = none; ready = m.ready ++ ((w, false) ∷ []) } in
      let (ticks, only, reached) =
        expired-Reaches later later.ready refl on (any_expired-append m.ready w) in
      (expires ∷ ticks, only, ap (λ o. (run (expire_wait m o) ticks).queue) waits ∙ reached)
