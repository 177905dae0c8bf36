-- ===== src/DomManager/Quiet.antt =====
-- The time between a stop and the next start.
use mathlib.Core.Path.{subst}
use stakan.Base.{
  ◌≡◌, refl, sym, ap, ◌∙◌, Bool, true, false, not, ◌||◌, List, [], ◌∷◌, Option, none, some, if_true,
}
use stakan.Wire.{Snapshot}
use stakan.DomManager.{
  DomManager, Wait, Command, add_order, remove_order, start_broadcast, stop_broadcast,
  send_snapshot_to_client, stop_broadcasting, handle, expire_wait, expire, tick, run_ready, Event,
  gets_command, expires, runs_handler, step, run,
}

-- Neither starts the broadcast nor asks for a snapshot.
abbrev pub IsQuietCommand : Command → Type 0
IsQuietCommand (add_order id is_bid order) = Unit {0}
IsQuietCommand (remove_order id order_id is_bid) = Unit {0}
IsQuietCommand (start_broadcast interval test) = ⊥
IsQuietCommand stop_broadcast = Unit {0}
IsQuietCommand (send_snapshot_to_client id test) = ⊥

abbrev pub AllQuiet : List Event → Type 0
AllQuiet [] = Unit {0}
AllQuiet (gets_command c taken ∷ es) = IsQuietCommand c × AllQuiet es
AllQuiet (expires ∷ es) = AllQuiet es
AllQuiet (runs_handler taken ∷ es) = AllQuiet es

-- The manager does not broadcast, and its queue is this one.
Rests : DomManager → DomManager → Type 0
Rests m n = (n.broadcasting ≡ false) × (n.queue ≡ m.queue)

handle-Rests :
    (m : DomManager) (c : Command) (taken : Option Snapshot)
    → IsQuietCommand c
    → m.broadcasting ≡ false
    → Rests m (handle m c taken)
unfolding handle stop_broadcasting Rests
handle-Rests m (add_order id is_bid order) taken q off = (off, refl)
handle-Rests m (remove_order id order_id is_bid) taken q off = (off, refl)
handle-Rests m stop_broadcast taken q off = (refl, refl)
handle-Rests m (start_broadcast interval test) taken q off = absurd q
handle-Rests m (send_snapshot_to_client id test) taken q off = absurd q

expire-Rests :
    (m : DomManager) (o : Option Wait) → m.broadcasting ≡ false → Rests m (expire_wait m o)
unfolding Rests
expire-Rests m none off = (off, refl)
expire-Rests m (some w) off = (off, refl)

or_true : (a : Bool) → (a || true) ≡ true
or_true true = refl
or_true false = refl

tick-Rests :
    (m : DomManager) (w : Wait) (error : Bool) (taken : Option Snapshot)
    → m.broadcasting ≡ false
    → Rests m (tick m w error taken)
unfolding tick
tick-Rests m w error taken off =
    subst (Rests m) (sym (if_true _ _ (ap (λ b. error || not b) off ∙ or_true error)))
      (unfold Rests in (off, refl))

run_ready-Rests :
    (m : DomManager) (ready : List (Wait × Bool)) (taken : Option Snapshot)
    → m.broadcasting ≡ false
    → Rests m (run_ready m ready taken)
unfolding run_ready Rests
run_ready-Rests m [] taken off = (off, refl)
run_ready-Rests m ((w, error) ∷ rest) taken off =
    unfold Rests in tick-Rests (record m { ready = rest }) w error taken off

run-Rests :
    (m : DomManager) (es : List Event) → AllQuiet es → m.broadcasting ≡ false → Rests m (run m es)
unfolding run step expire Rests
run-Rests m [] q off = (off, refl)
run-Rests m (gets_command c taken ∷ es) q off =
    let (still, same) = handle-Rests m c taken q.0 off in
    let (end_, kept) = run-Rests (handle m c taken) es q.1 still in (end_, kept ∙ same)
run-Rests m (expires ∷ es) q off =
    let (still, same) = expire-Rests m m.timer off in
    let (end_, kept) = run-Rests (expire m) es q still in (end_, kept ∙ same)
run-Rests m (runs_handler taken ∷ es) q off =
    let (still, same) = run_ready-Rests m m.ready taken off in
    let (end_, kept) = run-Rests (run_ready m m.ready taken) es q still in (end_, kept ∙ same)

-- After a stop, nothing is put into the queue by events that hold no command to start the broadcast
-- or to send a snapshot, whatever waits have expired before or expire later.
pub stop_is_quiet :
    (m : DomManager) (es : List Event)
    → AllQuiet es
    → ((run (stop_broadcasting m) es).queue ≡ m.queue)
      × ((run (stop_broadcasting m) es).broadcasting ≡ false)
unfolding stop_broadcasting Rests
stop_is_quiet m es q = let (off, same) = run-Rests (stop_broadcasting m) es q refl in (same, off)
