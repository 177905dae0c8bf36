-- ===== src/DomManager/Ticks.antt =====
-- The ticks of the periodic broadcast.
use mathlib.Core.Path.{subst}
use stakan.Base.{
  ℕ, ◌≡◌, ◌⊎◌, refl, sym, ap, ◌∙◌, Bool, true, false, not, List, [], ◌∷◌, ◌++◌, Option, none, some,
  if_true, if_false, inl, inr, Bool-cases,
}
use stakan.Wire.{Snapshot}
use stakan.DomManager.{
  DomManager, Wait, Command, add_order, remove_order, start_broadcast, stop_broadcast,
  send_snapshot_to_client, new_dom_manager, schedule_next_broadcast, start_broadcasting,
  stop_broadcasting, enqueue_snapshot, send_snapshot, send_snapshot_by_client_id, handle,
  expire_wait, expire, tick, run_ready, Event, gets_command, expires, runs_handler, step, run,
}

-- A wait that expired, and was not cancelled, is among these.
abbrev pub any_expired : List (Wait × Bool) → Bool
any_expired [] = false
any_expired ((w, true) ∷ ready) = any_expired ready
any_expired ((w, false) ∷ ready) = true

-- A manager that broadcasts waits for its timer, or a handler of a wait that expired is ready.
abbrev pub HasTick : DomManager → Type 0
HasTick m =
    (m.broadcasting ≡ false) ⊎ ((w : Wait) × (m.timer ≡ some w)) ⊎ (any_expired m.ready ≡ true)

pub any_expired-append :
    (ready : List (Wait × Bool)) (w : Wait) → any_expired (ready ++ ((w, false) ∷ [])) ≡ true
any_expired-append [] w = refl
any_expired-append ((v, true) ∷ ready) w = any_expired-append ready w
any_expired-append ((v, false) ∷ ready) w = refl

enqueue-HasTick :
    (m : DomManager) (id : Option ℕ) (taken : Option Snapshot)
    → HasTick m
    → HasTick (enqueue_snapshot m id taken)
unfolding enqueue_snapshot
enqueue-HasTick m id none h = h
enqueue-HasTick m id (some s) h = h

schedule-HasTick : (m : DomManager) (w : Wait) → HasTick (schedule_next_broadcast m w)
unfolding schedule_next_broadcast
schedule-HasTick m w = elim (Bool-cases m.broadcasting) [
  | inl on ↦ subst HasTick (sym (if_false _ _ (ap not on))) (inr (inl (w, refl)))
  | inr off ↦ subst HasTick (sym (if_true _ _ (ap not off))) (inl off)
]

start-HasTick : (m : DomManager) (w : Wait) → HasTick m → HasTick (start_broadcasting m w)
unfolding start_broadcasting
start-HasTick m w h = elim (Bool-cases m.broadcasting) [
  | inl on ↦ subst HasTick (sym (if_true _ _ on)) h
  | inr off ↦
      subst HasTick (sym (if_false _ _ off)) (schedule-HasTick (record m { broadcasting = true }) w)
]

handle-HasTick :
    (m : DomManager) (c : Command) (taken : Option Snapshot)
    → HasTick m
    → HasTick (handle m c taken)
unfolding handle stop_broadcasting send_snapshot_by_client_id
handle-HasTick m (add_order id is_bid order) taken h = h
handle-HasTick m (remove_order id order_id is_bid) taken h = h
handle-HasTick m stop_broadcast taken h = inl refl
handle-HasTick m (send_snapshot_to_client id test) taken h = enqueue-HasTick m (some id) taken h
handle-HasTick m (start_broadcast interval test) taken h = elim (Bool-cases m.broadcasting) [
  | inl on ↦ subst HasTick (sym (if_true _ _ on)) h
  | inr off ↦
      subst HasTick (sym (if_false _ _ off))
        (start-HasTick m (record { interval_ms = interval; use_test_broadcast = test }) h)
]

expire-HasTick : (m : DomManager) (o : Option Wait) → HasTick m → HasTick (expire_wait m o)
expire-HasTick m none h = h
expire-HasTick m (some w) h = inr (inr (any_expired-append m.ready w))

-- The handler of a wait that expired leaves a manager that broadcasts with a new wait.
tick-HasTick :
    (m : DomManager) (w : Wait) (taken : Option Snapshot) → HasTick (tick m w false taken)
unfolding tick
tick-HasTick m w taken = elim (Bool-cases m.broadcasting) [
  | inl on ↦
      subst HasTick (sym (if_false _ _ (ap not on))) (schedule-HasTick (send_snapshot m taken) w)
  | inr off ↦ subst HasTick (sym (if_true _ _ (ap not off))) (inl off)
]

run_ready-HasTick :
    (m : DomManager) (ready : List (Wait × Bool)) (taken : Option Snapshot)
    → m.ready ≡ ready
    → HasTick m
    → HasTick (run_ready m ready taken)
unfolding run_ready
run_ready-HasTick m [] taken e h = h
run_ready-HasTick m ((w, false) ∷ rest) taken e h = tick-HasTick (record m { ready = rest }) w taken
run_ready-HasTick m ((w, true) ∷ rest) taken e h =
    unfold tick in
    elim h [
      | inl off ↦ inl off
      | inr (inl armed) ↦ inr (inl armed)
      | inr (inr some_expired) ↦ inr (inr (sym (ap any_expired e) ∙ some_expired))
    ]

step-HasTick : (m : DomManager) (e : Event) → HasTick m → HasTick (step m e)
unfolding step expire
step-HasTick m (gets_command c taken) h = handle-HasTick m c taken h
step-HasTick m expires h = expire-HasTick m m.timer h
step-HasTick m (runs_handler taken) h = run_ready-HasTick m m.ready taken refl h

run-HasTick : (m : DomManager) (es : List Event) → HasTick m → HasTick (run m es)
unfolding run
run-HasTick m [] h = h
run-HasTick m (e ∷ es) h = run-HasTick (step m e) es (step-HasTick m e h)

-- The periodic broadcast never dies out: after any events on a new manager, one that broadcasts waits for
-- its timer, or a handler of a wait that expired is ready to run.
pub broadcast_goes_on : (es : List Event) → HasTick (run new_dom_manager es)
broadcast_goes_on es = run-HasTick new_dom_manager es (unfold new_dom_manager in inl refl)
