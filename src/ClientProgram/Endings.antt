-- ===== src/ClientProgram/Endings.antt =====
-- How the client's program ends.
use stakan.Base.{
  ℕ, Bool, true, false, List, [], ◌∷◌, ◌++◌, Result, ok, err, terminates, if◌then◌else◌,
}
use stakan.TcpClient.{Callback, on_connected, on_disconnected, on_error}
use stakan.ClientProgram.{Network}

-- A line that cannot be written.
abbrev pub error_unless : Bool → List Callback
error_unless true = []
error_unless false = on_error ∷ []

-- Once from the reader thread, if its read throws, and once from `Disconnect`.
abbrev pub disconnections : Bool → List Callback
disconnections false = on_disconnected ∷ []
disconnections true = on_disconnected ∷ on_disconnected ∷ []

abbrev pub ending : Network → Result (ℕ × List Callback)
ending network =
    if network.reachable
    then (if network.thread_ends
        then err terminates
        else ok (
          0,
          on_connected
              ∷ (error_unless network.subscribe_writes
                  ++ (error_unless network.unsubscribe_writes
                      ++ disconnections network.close_throws)),
        ))
    else ok (1, on_error ∷ [])
