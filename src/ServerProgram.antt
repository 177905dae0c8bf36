-- ===== src/ServerProgram.antt =====
-- src/TCP_server/main.cpp: the program of the server, over `TCPServer`.
use stakan.Base.{
  ℕ, ◌≡◌, refl, ap, List, [], ◌∷◌, ◌++◌, Option, none, some, Result, ok, err, terminates, codes,
  Output, to_cout, to_cerr,
}
use stakan.Clients.{make_client_list}
use stakan.Server.Listener.{TcpServer, Event, new_server, start_server, run}
use stakan.Server.Lifetimes.{no_session_lives}

-- How far the program has come: it returned a value, or its thread runs handlers and `join` waits for it.
pub data Ended : Type 0 where
  returns : ℕ → List Output → Ended
  serves : TcpServer → List Output → Ended

-- `io_context.run()` in its thread, behind which the `try` of `main` does not stand: an exception of a
-- handler ends the program. A started server has work for ever, since it waits for a connection.
unfoldable pub run_thread : Result TcpServer → List Output → Result Ended
run_thread (ok server) printed = ok (serves server printed)
run_thread (err e) printed = err terminates

-- `main`. The constructor of the server throws, with a text, if the port cannot be bound; the events are
-- those that the thread has handled so far.
unfoldable pub main : Option (List ℕ) → List Event → Result Ended
unfolding run_thread
main (some what) events = ok (returns 0 (to_cerr (codes "Exception: " ++ (what ++ (10 ∷ []))) ∷ []))
main none events =
    run_thread (run (start_server new_server) events)
      (to_cout (codes "Server started on port 1234\n") ∷ [])

-- With a free port the program prints one line; no events end it, and none give it a client. With no free
-- port it says so and returns 0, as a program that has done its work.
pub main_serves :
    (what : List ℕ) (events : List Event)
    → (main (some what) events
        ≡ ok (returns 0 (to_cerr (codes "Exception: " ++ (what ++ (10 ∷ []))) ∷ [])))
      × ((s : TcpServer) × (main none events
            ≡ ok (serves s (to_cout (codes "Server started on port 1234\n") ∷ [])))
          × (s.clients ≡ make_client_list))
unfolding main run_thread
main_serves what events =
    let (s, runs, _, nobody, _) = no_session_lives events in
    (
      refl,
      (
        s,
        ap (λ r. run_thread r (to_cout (codes "Server started on port 1234\n") ∷ [])) runs,
        nobody,
      ),
    )
