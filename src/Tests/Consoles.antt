-- ===== src/Tests/Consoles.antt =====
-- The console: its menu, its client and the application.
use stakan.Base.{
  ℕ, ◌≡◌, refl, true, false, List, [], ◌∷◌, ◌++◌, none, some, Result, ok, err, undefined, codes,
  same_text, length, ◌==◌, ==_of_eq,
}
use stakan.Base.Map.{lookup}
use stakan.Wire.{Snapshot}
use stakan.TcpClient.{on_connected, on_disconnected}
use stakan.TcpClient.Connection.{TcpClient, new_tcp_client}
use stakan.TcpClient.Connection as Tcp
use stakan.TcpClient.Callbacks.{last_call, callbacks_tell_connection}
use stakan.Console.Input.{extract, words}
use stakan.Console.Menu.{Strings, Commands, Command, Handled, Ended, find, answer, register_handler}
use stakan.Console.Menu as Menu
use stakan.Console.Menu.Loop.{by_words, converse, run-converse}
use stakan.Console.Menu.Table.{Registration, AllAlive, register_all, first_for}
use stakan.Console.Menu.Registered.{forget, find-register_all, dangling_key}
use stakan.Console.SnapshotClient as Client
use stakan.Console.SnapshotClient.{Config, LibraryCalls, SnapshotConsoleClient, new_console_client}
use stakan.Console.Agreement.{Event, connects, fetches, works, Agrees, run, run-Agrees}
use stakan.Console.OverTcp.{tcp_calls, tcp_calls-TellsAll}
use stakan.Console.App.{
  Desk, new_application, application_over, connect_handler, snapshot_handler, help_handler,
  exit_handler, run_application,
}
use stakan.Console.App.Conversation.{replies, run_application-replies}

abbrev Table : Type 0
Table = Desk TcpClient Snapshot

-- Every address can be reached.
abbrev calls : LibraryCalls TcpClient Snapshot
calls = tcp_calls (λ config. true) true

abbrev desk : Table
desk = record { snapshot_client = new_application; told = [] }

-- The names of the commands, in memory, for a table that compares lengths first.
abbrev names : Strings
names = record {
  texts = (1, codes "connect") ∷ (2, codes "snapshot") ∷ (3, codes "exit") ∷ (4, codes "exit") ∷ [];
  compares = λ key word. length key == length word;
  compares_same = λ text. ==_of_eq (length text) (length text) refl;
}

abbrev registrations : List (Registration Table)
registrations =
    record {
      at = 0;
      place = 1;
      description = codes "to the server";
      handler = some connect_handler;
    }
    ∷ record {
      at = 1;
      place = 2;
      description = codes "ask";
      handler = some (snapshot_handler calls);
    }
    ∷ record { at = 0; place = 3; description = codes "leave"; handler = some exit_handler }
    ∷ record { at = 9; place = 4; description = codes "again"; handler = some help_handler }
    ∷ []

all_alive : AllAlive names registrations
unfolding lookup
all_alive = ((_, refl), ((_, refl), ((_, refl), ((_, refl), tt))))

find-register_all_example :
    (commands : Commands Table) × (register_all names registrations [] ≡ ok commands)
    × ((word : List ℕ) → find names commands word ≡ ok (first_for names word registrations))
find-register_all_example = find-register_all names registrations all_alive

-- The second registration of the word exit changes nothing.
abbrev commands : Commands Table
commands =
    (3, record { command = codes "exit"; description = codes "leave"; handler = some exit_handler })
    ∷ (
      1,
      record {
        command = codes "connect";
        description = codes "to the server";
        handler = some connect_handler;
      },
    )
    ∷ (
      2,
      record {
        command = codes "snapshot";
        description = codes "ask";
        handler = some (snapshot_handler calls);
      },
    )
    ∷ []

registered : register_all names registrations [] ≡ ok commands
unfolding register_all register_handler find lookup Menu.insert_at same_text
registered = refl

abbrev typed : List ℕ
typed = codes "snapshot\n  help me exit help\n"

-- The word exit ends the loop, and the rest of the input is not read.
typed_ends :
    Menu.run names commands typed desk
    ≡ some (
        ok (record {
          world = desk;
          printed =
              codes
                "> > Available commands:\n  exit - leave\n  connect - to the server\n  snapshot - ask\n"
              ++ codes "> Unknown command: me\n> ";
          rest = codes " help\n";
        }))
unfolding Menu.run extract answer find lookup same_text Menu.print_help exit_handler
    snapshot_handler Client.fetch_snapshot new_application application_over
    Client.set_snapshot_callback Client.set_error_callback
typed_ends = refl

run-converse_example :
    (end : Result (Ended Table (List ℕ))) × (Menu.run names commands typed desk ≡ some end)
    × (by_words end ≡ converse names commands (words typed) desk)
run-converse_example = run-converse names commands typed desk

-- A command whose name was a temporary.
dangling_key_example :
    (made : Commands Table) × (register_handler 7 names 1 [] none [] ≡ ok made)
    × ((world : Table) → answer (forget 1 names) made (codes "connect") world ≡ err undefined)
unfolding lookup
dangling_key_example = dangling_key names 7 1 [] none (codes "connect") refl

run_application-replies_example :
    (rest : List ℕ) × (run_application typed desk
      ≡ some (
          ok (record {
            world = desk;
            printed =
                codes "Snapshot Console Client\nAvailable commands:\n" ++ replies (words typed);
            rest = rest;
          })))
    × (words rest ≡ [])
run_application-replies_example = run_application-replies typed desk

-- A connection that is made, asked for a snapshot, and lost.
abbrev life : List Event
life = connects (codes "localhost") 9000 ∷ fetches ∷ works 0 ∷ works 1 ∷ []

abbrev before : SnapshotConsoleClient TcpClient Snapshot
before = new_console_client (some new_tcp_client)

abbrev after : SnapshotConsoleClient TcpClient Snapshot
after = new_console_client (
    some (record {
      connected = false;
      io_thread = Tcp.ended;
      calls = on_disconnected ∷ [];
      written = [];
    }))

run-Agrees_example : Agrees calls after
unfolding run new_tcp_client Client.connect_to_server Tcp.connect Client.fetch_snapshot
    Tcp.reader_throws
run-Agrees_example =
    run-Agrees calls before after life (tcp_calls-TellsAll (λ config. true) true)
      (new_tcp_client, refl, refl) refl

abbrev lost_again : TcpClient
lost_again = record {
  connected = false;
  io_thread = Tcp.ended;
  calls = on_connected ∷ on_disconnected ∷ [];
  written = [];
}

callbacks_tell_connection_example : false ≡ last_call false lost_again.calls
unfolding Tcp.run Tcp.handle Tcp.connect Tcp.reader_throws new_tcp_client
callbacks_tell_connection_example =
    callbacks_tell_connection (Tcp.connects true ∷ Tcp.loses ∷ []) lost_again refl
