-- ===== src/DomProgram/Returns.antt =====
-- When `io_context::run` returns.
use stakan.Base.{◌≡◌, ◌≢◌, refl, ◌∙◌, inr, false, []}
use stakan.DomManager.{new_dom_manager}
use stakan.DomProgram.{
  Program, declared, thread_started, runs, returned, new_program, Step, Steps, starts_thread,
  gives_start, sleeps, gives_stop, stops_context, joins, handles, expires, ticks, returns, here,
  then,
}

-- The thread has returned, and was started before.
pub record IsOver (p : Program) : Type 0 where
  pub started_before : p.at ≢ declared
  pub has_returned : p.io_thread ≡ returned

-- Once the thread has returned it does not come back, and the manager stays as it is.
Step-IsOver : (p q : Program) → Step p q → IsOver p → IsOver q × (q.dom ≡ p.dom)
Step-IsOver p _ (starts_thread e) h = absurd (h.started_before e)
Step-IsOver p _ (gives_start e) h =
    (record { started_before = λ e. cc; has_returned = h.has_returned }, refl)
Step-IsOver p _ (sleeps e) h =
    (record { started_before = λ e. cc; has_returned = h.has_returned }, refl)
Step-IsOver p _ (gives_stop e) h =
    (record { started_before = λ e. cc; has_returned = h.has_returned }, refl)
Step-IsOver p _ (stops_context e) h =
    (record { started_before = λ e. cc; has_returned = h.has_returned }, refl)
Step-IsOver p _ (joins e r) h =
    (record { started_before = λ e. cc; has_returned = h.has_returned }, refl)
Step-IsOver p _ (handles command others taken r s e) h = absurd (cc (r, h.has_returned))
Step-IsOver p _ (expires r s) h = absurd (cc (r, h.has_returned))
Step-IsOver p _ (ticks taken r s) h = absurd (cc (r, h.has_returned))
Step-IsOver p _ (returns r w) h = absurd (cc (r, h.has_returned))

Steps-IsOver : (p q : Program) → Steps p q → IsOver p → q.dom ≡ p.dom
Steps-IsOver p _ here h = refl
Steps-IsOver p r (then {q = q} s ss) h =
    let (over, same) = Step-IsOver p q s h in Steps-IsOver q r ss over ∙ same

-- The thread, started, with nothing posted yet.
abbrev idle : Program
idle = record {
  at = thread_started;
  io_thread = runs;
  stopped = false;
  posted = [];
  dom = new_dom_manager;
}

abbrev idle_returned : Program
idle_returned = record idle { io_thread = returned }

idle_reached : Steps new_program idle_returned
unfolding new_program new_dom_manager
idle_reached = then (starts_thread refl) (
    then
      (returns refl
        (inr (record { nothing_posted = refl; nothing_waits = refl; nothing_ready = refl })))
      here)

-- The program can reach a state from which it broadcasts nothing, whatever follows: its thread has found no
-- work, before the command to start was posted, and has returned. No command is handled from then on,
-- so the manager stays as it was made.
pub may_never_broadcast :
    (p : Program) × (Steps new_program p)
    × (p.at ≡ thread_started)
    × ((q : Program) → Steps p q → q.dom ≡ new_dom_manager)
may_never_broadcast =
    (idle_returned, idle_reached, refl, λ q ss. Steps-IsOver idle_returned q ss over)
  where
    over : IsOver idle_returned
    over = record { started_before = λ e. cc; has_returned = refl }
