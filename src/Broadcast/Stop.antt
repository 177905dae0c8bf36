-- ===== src/Broadcast/Stop.antt =====
-- What the worker thread does with the queue, and what a stop finds.
use mathlib.Core.List.{append_assoc}
use stakan.Base.{◌≡◌, refl, sym, ap, ◌∙◌, false, List, [], ◌∷◌, ◌++◌, some}
use stakan.Broadcast.{BroadcastCommand, CommandQueue, pop}
use stakan.Broadcast.Worker.{
  Broadcaster, in_pop, Step, starts, goes_on, returns, pops, stops, joins, Steps, stays, moves,
}

-- What was posted and what waits.
abbrev pub all_commands : Broadcaster → List BroadcastCommand
all_commands b = b.posted ++ b.queue

popped :
    (queue : CommandQueue) (cmd : BroadcastCommand) (rest : CommandQueue)
    → pop queue ≡ some (cmd, rest)
    → queue ≡ cmd ∷ rest
unfolding pop
popped [] cmd rest e = cc e
popped (x ∷ queue) cmd rest e = cc e

all_commands-Step : (a b : Broadcaster) → Step a b → all_commands b ≡ all_commands a
all_commands-Step _ _ (starts a run t) = refl
all_commands-Step _ _ (goes_on a t run) = refl
all_commands-Step _ _ (returns a t run) = refl
all_commands-Step _ _ (pops a cmd rest t e) =
    append_assoc a.posted (cmd ∷ []) rest
    ∙ ap (λ q. a.posted ++ q) (sym (popped a.queue cmd rest e))
all_commands-Step _ _ (stops a run j) = refl
all_commands-Step _ _ (joins a j t) = refl

-- While no command comes, the worker posts the commands in the order of the queue, each once, and
-- loses none: what was posted, followed by what waits, stays the same.
pub all_commands-Steps : (a b : Broadcaster) → Steps a b → all_commands b ≡ all_commands a
all_commands-Steps _ _ (stays a) = refl
all_commands-Steps _ _ (moves a b c s ss) = all_commands-Steps b c ss ∙ all_commands-Step a b s

no-Step : (a b : Broadcaster) → a.thread ≡ in_pop → a.running ≡ false → a.queue ≡ [] → ¬ Step a b
unfolding pop
no-Step _ _ t r q (starts a run other) = cc (t, other)
no-Step _ _ t r q (goes_on a other run) = cc (t, other)
no-Step _ _ t r q (returns a other run) = cc (t, other)
no-Step _ _ t r q (pops a cmd rest t' e) = cc (popped a.queue cmd rest e, q)
no-Step _ _ t r q (stops a run j) = cc (r, run)
no-Step _ _ t r q (joins a j other) = cc (t, other)

-- When the worker is in `pop` on an empty queue and `running_` was cleared, no step is left until a
-- command comes: a `stop` that joins the thread then waits for ever.
pub stop_waits_for_ever :
    (a b : Broadcaster) → a.thread ≡ in_pop → a.running ≡ false → a.queue ≡ [] → Steps a b → b ≡ a
stop_waits_for_ever _ _ t r q (stays a) = refl
stop_waits_for_ever _ _ t r q (moves a b c s ss) = absurd (no-Step a b t r q s)
