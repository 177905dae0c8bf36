-- ===== src/Console/App/Conversation.antt =====
-- What a user of the application gets for an input, and what its other calls do.
use mathlib.Core.Option
use stakan.Base.{
  Output, to_cout, to_cerr, ℕ, ◌≡◌, refl, ap, ◌∙◌, Bool, true, false, List, [], ◌∷◌, ◌++◌, some,
  Result, ok, err, undefined, Bool-cases, inl, inr, if◌then◌else◌, codes, same_text, decimal,
}
use stakan.Wire.{Snapshot}
use stakan.TcpClient.Connection.{TcpClient, new_tcp_client}
use stakan.TcpClient.Connection as Tcp
use stakan.Console.Input.{words}
use stakan.Console.Menu.{no_strings, Ended, announce, answer, find, execute, print_help, help_lines}
use stakan.Console.Menu.Loop.{by_words, converse, run-converse}
use stakan.Console.SnapshotClient.{
  LibraryCalls, Config, SnapshotConsoleClient, connect_to_server, client_is_connected, call,
  handle_signals, handle_signal, set_snapshot_callback, set_error_callback,
}
use stakan.Console.SnapshotClient as Console
use stakan.Console.OverTcp.{tcp_calls}
use stakan.Console.App.{
  report_error, application_over, new_application, connect, fetch_snapshot, snapshot_handler,
  run_application,
}

-- What is printed for a word and at the end.
abbrev pub reply : List ℕ → List ℕ
reply word =
    if same_text word (codes "help")
    then codes "Available commands:\n"
    else codes "Unknown command: " ++ (word ++ (10 ∷ []))

abbrev pub replies : List (List ℕ) → List ℕ
replies [] = codes "> "
replies (word ∷ others) = (codes "> " ++ reply word) ++ replies others

converse-replies :
    {World : Type 0} (ws : List (List ℕ)) (world : World)
    → converse no_strings [] ws world
      ≡ ok (record { world = world; printed = replies ws; rest = [] })
unfolding converse answer find execute print_help help_lines
converse-replies [] world = refl
converse-replies (word ∷ others) world =
    ap (announce (codes "> " ++ reply word)) (converse-replies others world)

-- The end of the loop that becomes a given end over words.
end_of_words :
    {World : Type 0} (r : Result (Ended World (List ℕ))) (world : World) (printed : List ℕ)
    → by_words r ≡ ok (record { world = world; printed = printed; rest = [] })
    → (rest : List ℕ) × (r ≡ ok (record { world = world; printed = printed; rest = rest }))
      × (words rest ≡ [])
end_of_words (err f) world printed p = absurd cc
end_of_words {World = World} (ok end) world printed p =
    let same : ◌≡◌ {A = Ended World (List (List ℕ))}
        (record { world = end.world; printed = end.printed; rest = words end.rest })
        (record { world = world; printed = printed; rest = [] }) =
      cc in
    (
      end.rest,
      ap
          (λ (e : Ended World (List (List ℕ))).
            ok (record { world = e.world; printed = e.printed; rest = end.rest }))
          same,
      ap (λ (e : Ended World (List (List ℕ))). e.rest) same,
    )

-- Whatever is typed, the application reads all of it and then ends: its constructor registers no
-- command, so it knows the word help, with no commands to list, and answers any other word as unknown.
-- It never calls a handler, so nothing else of the program changes.
pub run_application-replies :
    {World : Type 0} (input : List ℕ) (world : World)
    → (rest : List ℕ) × (run_application input world
        ≡ some (
            ok (record {
              world = world;
              printed =
                  codes "Snapshot Console Client\nAvailable commands:\n" ++ replies (words input);
              rest = rest;
            })))
      × (words rest ≡ [])
unfolding run_application print_help help_lines
run_application-replies input world =
    let (end, runs, same) = run-converse no_strings [] input world in
    let (rest, ends, all_read) =
      end_of_words end world (replies (words input))
        (same ∙ converse-replies (words input) world) in
    (
      rest,
      ap (Option.map (announce (codes "Snapshot Console Client\nAvailable commands:\n")))
          (runs ∙ ap some ends),
      all_read,
    )

-- The constructor gives its client a null pointer: to connect or to fetch a snapshot has no defined
-- meaning, whatever the library does, and the command `snapshot`, if it were registered, would ask
-- for nothing.
pub new_application_unusable :
    {Library Snap : Type 0} (calls : LibraryCalls Library Snap) (host : List ℕ) (port : ℕ)
    (told : List Output)
    → (connect calls new_application host port ≡ err undefined)
      × (fetch_snapshot calls new_application ≡ err undefined)
      × (snapshot_handler calls (record { snapshot_client = new_application; told = told })
          ≡ ok (record {
            world = record { snapshot_client = new_application; told = told ++ [] };
            printed = [];
            goes_on = true;
            stops = false;
          }))
unfolding connect fetch_snapshot new_application application_over connect_to_server
    client_is_connected call snapshot_handler Console.fetch_snapshot set_snapshot_callback
    set_error_callback
new_application_unusable calls host port told = (refl, refl, refl)

-- What `connect` prints.
abbrev pub address : List ℕ → ℕ → List ℕ
address host port = host ++ (codes ":" ++ (decimal port ++ (10 ∷ [])))

abbrev pub connection_lines : Bool → List ℕ → ℕ → List Output
connection_lines true host port = to_cout (codes "Connected to " ++ address host port) ∷ []
connection_lines false host port =
    to_cerr (codes "ERROR: \n") ∷ to_cerr (codes "Failed to connect to " ++ address host port) ∷ []

-- Over a new TCP client, an application would connect exactly when the server can be reached. Then
-- its client is connected, and the line on std::cout says so; otherwise the error and the failure
-- are on std::cerr.
pub connect_over_tcp :
    (reachable : Config → Bool) (by_exception : Bool) (host : List ℕ) (port : ℕ)
    → (let up = reachable (record { host = host; port = port; auto_reconnect = false }) in
        (d : SnapshotConsoleClient TcpClient Snapshot) × (connect
            (tcp_calls reachable by_exception)
            (application_over (some new_tcp_client))
            host
            port
          ≡ ok (d, up, connection_lines up host port))
        × (d.connected ≡ up))
unfolding connect application_over connect_to_server client_is_connected call handle_signals
    handle_signal set_snapshot_callback set_error_callback Tcp.connect new_tcp_client report_error
connect_over_tcp reachable by_exception host port =
    elim (Bool-cases (reachable (record { host = host; port = port; auto_reconnect = false }))) [
      | inl up ↦ rw up (_, refl, refl)
      | inr down ↦ rw down (_, refl, refl)
    ]
