-- ===== src/Broadcast/Absorption.antt =====
-- What the queue of commands absorbs and keeps.
use mathlib.Core.List.{append_assoc, append-nil}
use stakan.Base.{ℕ, ◌≡◌, refl, sym, ap, ◌∙◌, none, some, List, [], ◌∷◌, ◌++◌}
use stakan.Broadcast.{BroadcastCommand, CommandQueue, push, pop, push_all}

-- Every command is for one client.
abbrev pub AllTargeted : List BroadcastCommand → Type 0
AllTargeted [] = Unit {0}
AllTargeted (cmd ∷ cmds) = ((id : ℕ) × (cmd.client_id ≡ some id)) × AllTargeted cmds

push-targeted :
    (queue : CommandQueue) (cmd : BroadcastCommand) (id : ℕ)
    → cmd.client_id ≡ some id
    → push queue cmd ≡ queue ++ (cmd ∷ [])
unfolding push
push-targeted queue cmd id e =
    ap (λ o. elim o as (λ x. CommandQueue) [ none ↦ cmd ∷ [] | some id ↦ queue ++ (cmd ∷ []) ]) e

push-to_all :
    (queue : CommandQueue) (cmd : BroadcastCommand)
    → cmd.client_id ≡ none
    → push queue cmd ≡ cmd ∷ []
unfolding push
push-to_all queue cmd e =
    ap (λ o. elim o as (λ x. CommandQueue) [ none ↦ cmd ∷ [] | some id ↦ queue ++ (cmd ∷ []) ]) e

push_all-targeted :
    (queue : CommandQueue) (cmds : List BroadcastCommand)
    → AllTargeted cmds
    → push_all queue cmds ≡ queue ++ cmds
unfolding push_all
push_all-targeted queue [] all = sym (append-nil queue)
push_all-targeted queue (cmd ∷ cmds) ((id, e), all) =
    ap (λ q. push_all q cmds) (push-targeted queue cmd id e)
    ∙ push_all-targeted (queue ++ (cmd ∷ [])) cmds all
    ∙ append_assoc queue (cmd ∷ []) cmds

push_all-append :
    (queue : CommandQueue) (xs ys : List BroadcastCommand)
    → push_all queue (xs ++ ys) ≡ push_all (push_all queue xs) ys
unfolding push_all
push_all-append queue [] ys = refl
push_all-append queue (x ∷ xs) ys = push_all-append (push queue x) xs ys

-- Commands for one client each are taken out in the order in which they came. A command for all
-- drops every command before it, of any type, and is the next one to be taken out; when commands
-- for one client each come after it, they follow in their order.
pub absorption :
    (queue : CommandQueue) (before : List BroadcastCommand) (cmd : BroadcastCommand)
    (after : List BroadcastCommand)
    → cmd.client_id ≡ none
    → AllTargeted after
    → (push_all queue after ≡ queue ++ after)
      × (pop (push_all queue (before ++ (cmd ∷ after))) ≡ some (cmd, after))
unfolding push_all pop
absorption queue before cmd after e all = (
  push_all-targeted queue after all,
  ap pop (
      push_all-append queue before (cmd ∷ after)
      ∙ ap (λ q. push_all q after) (push-to_all (push_all queue before) cmd e)
      ∙ push_all-targeted (cmd ∷ []) after all),
)
