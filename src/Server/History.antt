-- ===== src/Server/History.antt =====
-- The messages and disconnects that a server handles, in any order. A handler that throws has
-- changed nothing before.
use stakan.Base.{ℕ, List, [], ◌∷◌, Result, ok, err}
use stakan.Clients.{ClientList}
use stakan.Clients.History.{after}
use stakan.Server.{Effect, handle_message, handle_disconnect}

pub data Event : Type 0 where
  gets_message : List ℕ → ℕ → Event
  loses_session : ℕ → Event

abbrev pub list_after : ClientList → Result (ClientList × List Effect) → ClientList
list_after l (ok (m, effects)) = m
list_after l (err e) = l

unfoldable pub serve : ClientList → Event → ClientList
serve l (gets_message frame session) = list_after l (handle_message l frame session)
serve l (loses_session session) = after l (handle_disconnect l session)

unfoldable pub serve_all : ClientList → List Event → ClientList
serve_all l [] = l
serve_all l (e ∷ es) = serve_all (serve l e) es
