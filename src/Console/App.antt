-- ===== src/Console/App.antt =====
-- src/console/app.cpp and menu_action.cpp: the application of the console and the handlers of its
-- commands. The type of a snapshot is not in the repository: it is a parameter.
pub mod Conversation
use Prim.Native.Nat.{ℕ, ◌+◌, ◌/◌, ◌%◌}
use Prim.Native.Char.{code}
use Prim.Native.String.{String}
use stakan.Base.{
  Output, to_cout, to_cerr, Bool, true, false, List, [], ◌∷◌, ◌++◌, Option, none, some, Result, ok,
  err, ◌>>=◌, if◌then◌else◌, ltb, codes, decimal,
}
use stakan.Console.Menu.{Handled, Commands, Ended, announce, print_help}
use stakan.Console.Menu as Menu
use stakan.Console.SnapshotClient.{
  LibraryCalls, SnapshotConsoleClient, new_console_client, set_snapshot_callback,
  set_error_callback, connect_to_server, client_is_connected,
}
use stakan.Console.SnapshotClient as Console
use mathlib.Core.Option

-- The bytes of a text: characters below 128 take one byte, the others of this file two.
abbrev bytes_of : ℕ → List ℕ → List ℕ
bytes_of c rest = if ltb c 128 then c ∷ rest else (192 + c / 64) ∷ (128 + c % 64) ∷ rest

abbrev utf8 : List ℕ → List ℕ
utf8 [] = []
utf8 (c ∷ cs) = bytes_of c (utf8 cs)

-- `on_snapshot_received` and `on_error`, the callbacks of the application
unfoldable pub on_snapshot_received : {Snapshot : Type 0} → Snapshot → List Output
on_snapshot_received snapshot =
    to_cout (codes "=== Snapshot received ===\n")
    ∷ to_cout (utf8 (codes "ЗАГЛУШКААААААААААААА\n"))
    ∷ []

unfoldable pub report_error : List ℕ → List Output
report_error error = to_cerr (codes "ERROR: " ++ (error ++ (10 ∷ []))) ∷ []

-- The state that the handlers of the commands work on: the client, and what it has printed.
pub record Desk (Client Snapshot : Type 0) : Type 0 where
  pub snapshot_client : SnapshotConsoleClient Client Snapshot
  pub told : List Output

-- The result of a handler that prints nothing itself.
abbrev done : {World : Type 0} → World → Bool → Result (Handled World)
done world goes_on = ok (record { world = world; printed = []; goes_on = goes_on; stops = false })

module _ {Client Snapshot : Type 0} where
  -- The state of `Application` that its constructor makes, over a client of the library.
  unfoldable pub application_over : Option Client → SnapshotConsoleClient Client Snapshot
  unfolding set_snapshot_callback set_error_callback
  application_over client =
      set_error_callback (set_snapshot_callback (new_console_client client) on_snapshot_received)
        report_error

  -- The constructor, which gives a null pointer.
  unfoldable pub new_application : SnapshotConsoleClient Client Snapshot
  unfolding application_over
  new_application = application_over none

  -- `CommandHandlers::Connect`
  unfoldable pub connect_handler : Desk Client Snapshot → Result (Handled (Desk Client Snapshot))
  connect_handler desk = done desk false

  -- `CommandHandlers::Help`
  unfoldable pub help_handler : Desk Client Snapshot → Result (Handled (Desk Client Snapshot))
  help_handler desk = done desk true

  -- `CommandHandlers::Exit`
  unfoldable pub exit_handler : Desk Client Snapshot → Result (Handled (Desk Client Snapshot))
  exit_handler desk = done desk false

module _ {Client Snapshot : Type 0} (calls : LibraryCalls Client Snapshot) where
  -- `Application::connect`
  unfoldable pub connect :
      SnapshotConsoleClient Client Snapshot
      → List ℕ
      → ℕ
      → Result (SnapshotConsoleClient Client Snapshot × Bool × List Output)
  unfolding connect_to_server client_is_connected
  connect c host port = do
    (d, told) ← connect_to_server calls c host port
    on ← client_is_connected calls d
    let at = host ++ (codes ":" ++ (decimal port ++ (10 ∷ [])))
    let line =
        if on
        then to_cout (codes "Connected to " ++ at)
        else to_cerr (codes "Failed to connect to " ++ at)
    ok (d, on, told ++ (line ∷ []))

  -- `Application::fetch_snapshot` behind the test
  abbrev fetch_if :
      Bool
      → SnapshotConsoleClient Client Snapshot
      → Result (SnapshotConsoleClient Client Snapshot × Bool × List Output)
  fetch_if false c = ok (c, false, to_cerr (codes "Not connected to server\n") ∷ [])
  fetch_if true c = Console.fetch_snapshot calls c >>= λ (d, told). ok (d, true, told)

  -- `Application::fetch_snapshot`
  unfoldable pub fetch_snapshot :
      SnapshotConsoleClient Client Snapshot
      → Result (SnapshotConsoleClient Client Snapshot × Bool × List Output)
  unfolding client_is_connected
  fetch_snapshot c = client_is_connected calls c >>= λ on. fetch_if on c

  -- `CommandHandlers::Snapshot`; the application's client is there.
  unfoldable pub snapshot_handler : Desk Client Snapshot → Result (Handled (Desk Client Snapshot))
  snapshot_handler desk = do
    (client, told) ← Console.fetch_snapshot calls desk.snapshot_client
    done (record { snapshot_client = client; told = desk.told ++ told }) true

-- `Application::Run`. The constructor registers no command.
unfoldable pub run_application :
    {World : Type 0} → List ℕ → World → Option (Result (Ended World (List ℕ)))
unfolding Menu.run print_help
run_application {World = World} input world =
    Option.map (announce (codes "Snapshot Console Client\n" ++ print_help {World = World} []))
      (Menu.run Menu.no_strings [] input world)
