-- ===== src/DomManager/Pace.antt =====
-- The pace of the broadcast.
use mathlib.Core.Path.{subst}
use stakan.Base.{
  ℕ, ◌≡◌, sym, ap, Bool, true, false, not, ◌||◌, List, [], ◌∷◌, ◌++◌, Option, none, some,
  Bool-cases, inl, inr, if_true, if_false,
}
use stakan.Wire.{Snapshot}
use stakan.DomManager.{
  add_order, remove_order, start_broadcast, stop_broadcast, send_snapshot_to_client, Wait,
  DomManager, cancel_wait, schedule_next_broadcast, start_broadcasting, stop_broadcasting,
  enqueue_snapshot, send_snapshot, send_snapshot_by_client_id, handle, expire, expire_wait, tick,
  run_ready, Event, gets_command, expires, runs_handler, step, run,
}

abbrev TimerPaced : ℕ → Option Wait → Type 0
TimerPaced i none = Unit {0}
TimerPaced i (some w) = w.interval_ms ≡ i

abbrev ReadyPaced : ℕ → List (Wait × Bool) → Type 0
ReadyPaced i [] = Unit {0}
ReadyPaced i ((w, error) ∷ others) = (w.interval_ms ≡ i) × ReadyPaced i others

-- Every wait on the timer is for this number of milliseconds.
pub record IsPaced (i : ℕ) (m : DomManager) : Type 0 where
  pub timer_paced : TimerPaced i m.timer
  pub ready_paced : ReadyPaced i m.ready

-- Every command to start has this interval.
abbrev pub StartsAt : ℕ → List Event → Type 0
StartsAt i [] = Unit {0}
StartsAt i (gets_command (start_broadcast j test) taken ∷ es) = (j ≡ i) × StartsAt i es
StartsAt i (gets_command stop_broadcast taken ∷ es) = StartsAt i es
StartsAt i (gets_command (add_order id is_bid order) taken ∷ es) = StartsAt i es
StartsAt i (gets_command (remove_order id order_id is_bid) taken ∷ es) = StartsAt i es
StartsAt i (gets_command (send_snapshot_to_client id test) taken ∷ es) = StartsAt i es
StartsAt i (expires ∷ es) = StartsAt i es
StartsAt i (runs_handler taken ∷ es) = StartsAt i es

ReadyPaced-append :
    (i : ℕ) (ready : List (Wait × Bool)) (w : Wait) (error : Bool)
    → w.interval_ms ≡ i
    → ReadyPaced i ready
    → ReadyPaced i (ready ++ ((w, error) ∷ []))
ReadyPaced-append i [] w error e h = (e, tt)
ReadyPaced-append i (first ∷ others) w error e (p, h) = (p, ReadyPaced-append i others w error e h)

cancel_wait-ReadyPaced :
    (i : ℕ) (timer : Option Wait) (ready : List (Wait × Bool))
    → TimerPaced i timer
    → ReadyPaced i ready
    → ReadyPaced i (cancel_wait timer ready)
unfolding cancel_wait
cancel_wait-ReadyPaced i none ready t h = h
cancel_wait-ReadyPaced i (some w) ready t h = ReadyPaced-append i ready w true t h

schedule-IsPaced :
    (i : ℕ) (m : DomManager) (w : Wait)
    → w.interval_ms ≡ i
    → IsPaced i m
    → IsPaced i (schedule_next_broadcast m w)
unfolding schedule_next_broadcast
schedule-IsPaced i m w e h = elim (Bool-cases m.broadcasting) [
  | inl on ↦ subst (IsPaced i) (sym (if_false _ _ (ap not on))) (record {
    timer_paced = e;
    ready_paced = cancel_wait-ReadyPaced i m.timer m.ready h.timer_paced h.ready_paced;
  })
  | inr off ↦ subst (IsPaced i) (sym (if_true _ _ (ap not off))) h
]

start-IsPaced :
    (i : ℕ) (m : DomManager) (w : Wait)
    → w.interval_ms ≡ i
    → IsPaced i m
    → IsPaced i (start_broadcasting m w)
unfolding start_broadcasting
start-IsPaced i m w e h = elim (Bool-cases m.broadcasting) [
  | inl on ↦ subst (IsPaced i) (sym (if_true _ _ on)) h
  | inr off ↦ subst (IsPaced i) (sym (if_false _ _ off)) (
      schedule-IsPaced i (record m { broadcasting = true }) w e
        (record { timer_paced = h.timer_paced; ready_paced = h.ready_paced }))
]

enqueue-IsPaced :
    (i : ℕ) (m : DomManager) (id : Option ℕ) (taken : Option Snapshot)
    → IsPaced i m
    → IsPaced i (enqueue_snapshot m id taken)
unfolding enqueue_snapshot
enqueue-IsPaced i m id none h = h
enqueue-IsPaced i m id (some s) h = record {
  timer_paced = h.timer_paced;
  ready_paced = h.ready_paced;
}

tick-IsPaced :
    (i : ℕ) (m : DomManager) (w : Wait) (error : Bool) (taken : Option Snapshot)
    → w.interval_ms ≡ i
    → IsPaced i m
    → IsPaced i (tick m w error taken)
unfolding tick send_snapshot
tick-IsPaced i m w error taken e h = elim (Bool-cases (error || not m.broadcasting)) [
  | inl stops ↦ subst (IsPaced i) (sym (if_true _ _ stops)) h
  | inr goes ↦
      subst (IsPaced i) (sym (if_false _ _ goes))
        (schedule-IsPaced i (enqueue_snapshot m none taken) w e (enqueue-IsPaced i m none taken h))
]

expire-IsPaced :
    (i : ℕ) (m : DomManager) (timer : Option Wait)
    → TimerPaced i timer
    → IsPaced i m
    → IsPaced i (expire_wait m timer)
expire-IsPaced i m none t h = h
expire-IsPaced i m (some w) t h = record {
  timer_paced = tt;
  ready_paced = ReadyPaced-append i m.ready w false t h.ready_paced;
}

run_ready-IsPaced :
    (i : ℕ) (m : DomManager) (ready : List (Wait × Bool)) (taken : Option Snapshot)
    → ReadyPaced i ready
    → IsPaced i m
    → IsPaced i (run_ready m ready taken)
unfolding run_ready
run_ready-IsPaced i m [] taken r h = h
run_ready-IsPaced i m ((w, error) ∷ rest) taken (e, r) h =
    tick-IsPaced i (record m { ready = rest }) w error taken e
      (record { timer_paced = h.timer_paced; ready_paced = r })

start_command-IsPaced :
    (i : ℕ) (m : DomManager) (j : ℕ) (test : Bool) (taken : Option Snapshot)
    → j ≡ i
    → IsPaced i m
    → IsPaced i (handle m (start_broadcast j test) taken)
unfolding handle
start_command-IsPaced i m j test taken e h = elim (Bool-cases m.broadcasting) [
  | inl on ↦ subst (IsPaced i) (sym (if_true _ _ on)) h
  | inr off ↦ subst (IsPaced i) (sym (if_false _ _ off)) (start-IsPaced i m _ e h)
]

-- If every command to start has one interval, then after any commands and any ticks every wait is for it.
pub run-IsPaced :
    (i : ℕ) (m : DomManager) (es : List Event) → StartsAt i es → IsPaced i m → IsPaced i (run m es)
unfolding run step handle stop_broadcasting send_snapshot_by_client_id expire
run-IsPaced i m [] s h = h
run-IsPaced i m (gets_command (start_broadcast j test) taken ∷ es) (e, s) h =
    run-IsPaced i _ es s (start_command-IsPaced i m j test taken e h)
run-IsPaced i m (gets_command stop_broadcast taken ∷ es) s h =
    run-IsPaced i (stop_broadcasting m) es s (record {
      timer_paced = tt;
      ready_paced = cancel_wait-ReadyPaced i m.timer m.ready h.timer_paced h.ready_paced;
    })
run-IsPaced i m (gets_command (add_order id is_bid order) taken ∷ es) s h = run-IsPaced i m es s h
run-IsPaced i m (gets_command (remove_order id order_id is_bid) taken ∷ es) s h =
    run-IsPaced i m es s h
run-IsPaced i m (gets_command (send_snapshot_to_client id test) taken ∷ es) s h =
    run-IsPaced i (enqueue_snapshot m (some id) taken) es s (enqueue-IsPaced i m (some id) taken h)
run-IsPaced i m (expires ∷ es) s h =
    run-IsPaced i (expire m) es s (expire-IsPaced i m m.timer h.timer_paced h)
run-IsPaced i m (runs_handler taken ∷ es) s h =
    run-IsPaced i (run_ready m m.ready taken) es s
      (run_ready-IsPaced i m m.ready taken h.ready_paced h)
