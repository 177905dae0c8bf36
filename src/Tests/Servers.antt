-- ===== src/Tests/Servers.antt =====
-- The server of src/TCP_server and its sessions.
use stakan.Base.{
  ℕ, ◌≡◌, ◌≢◌, ◌⊎◌, ◌%◌, ◌^◌, refl, List, [], ◌∷◌, ◌++◌, some, true, false, ok, err, runtime_error,
  codes, arith, add64, mul64,
}
use stakan.Clients.{
  ClientList, SessionPtr, make_client_list, has_client, get_session, is_subscribed,
  find_client_id_by_session, new_context, add_session, client_at, remember_session, forget_session,
  put_context, subscribe,
}
use stakan.Base.Map.{lookup, insert, erase}
use stakan.Clients.History.{adds_session, step, run}
use stakan.Server.{
  Effect, sends_msg, parse_client_id, handle_message, handle_disconnect, trim_end, trim_begin,
  matches, parse_digits, byte_at, farewell, bad_hello_response, reconnected_response, ok_response,
}
use stakan.Server.Hello.{hello_frame, parse_client_id-hello}
use stakan.Server.Hello.Loops.{value_of}
use stakan.Server.Admission.{greet, greeted, Sends, handle_message_branches}
use stakan.Server.Reconnect.{reconnect_survives}
use stakan.Server.Newcomers.{serve_all_admits_nobody}
use stakan.Server.History.{Event, gets_message, loses_session, serve_all}
use stakan.Session.{new_session}
use stakan.Session.History
use stakan.Session.History.{sends, writes_done}
use stakan.Session.Accepted.{IsFifo, accepted}
use stakan.Session.Fifo.{run-IsFifo}

parse_client_id-hello_example :
    parse_client_id (hello_frame 2 (52 ∷ 50 ∷ []) (13 ∷ 10 ∷ []))
    ≡ value_of 0 (52 ∷ 50 ∷ []) % 2 ^ 64
parse_client_id-hello_example =
    parse_client_id-hello 2 52 (50 ∷ []) (13 ∷ 10 ∷ [])
      (omega arith, omega arith, (omega arith, omega arith, tt)) (refl, (refl, tt))

abbrev greeting : List ℕ
greeting = codes "HELLO 7" ++ (10 ∷ [])

-- Client 7 with session 1.
abbrev clients : ClientList
clients = run make_client_list (adds_session 7 (some 1) ∷ [])

abbrev greeted_answer : List Effect
greeted_answer =
    sends_msg 1 reconnected_response ∷ Effect.stops 1 ∷ sends_msg 2 (ok_response 7) ∷ []

greeting-id : parse_client_id greeting ≡ 7
unfolding parse_client_id trim_end trim_begin matches parse_digits byte_at add64 mul64
greeting-id = refl

handle_message_branches_example :
    ((parse_client_id greeting ≡ 0)
      × (handle_message clients greeting 2 ≡ ok (clients, sends_msg 2 bad_hello_response ∷ [])))
    ⊎ ((has_client clients (parse_client_id greeting) ≡ false)
        × (handle_message clients greeting 2 ≡ err runtime_error))
    ⊎ ((m : ClientList) × (old : SessionPtr) × (get_session clients (parse_client_id greeting)
          ≡ ok old)
        × ((effects : List Effect) × (handle_message clients greeting 2 ≡ ok (m, effects))
            × Sends old 2 (parse_client_id greeting) effects)
        × (get_session m (parse_client_id greeting) ≡ ok (some 2))
        × (is_subscribed m (parse_client_id greeting) ≡ ok true)
        × (find_client_id_by_session m 2 ≡ some (parse_client_id greeting)))
handle_message_branches_example = handle_message_branches clients greeting 2

abbrev reconnected : ClientList
reconnected = greet clients 7 2 (record new_context { session = some 1 })

has_id : parse_client_id greeting ≢ 0
has_id e = absurd (omega (arith, greeting-id, e))

has_session_1 : get_session clients (parse_client_id greeting) ≡ ok (some 1)
unfolding run step make_client_list add_session client_at get_session remember_session
    forget_session insert erase lookup parse_client_id trim_end trim_begin matches parse_digits
    byte_at add64 mul64
has_session_1 = refl

reconnects : handle_message clients greeting 2 ≡ ok (reconnected, greeted_answer)
unfolding handle_message farewell greet greeted put_context subscribe run step make_client_list
    add_session client_at get_session remember_session forget_session insert erase lookup
    parse_client_id trim_end trim_begin matches parse_digits byte_at add64 mul64
reconnects = refl

reconnect_survives_example :
    (greeted_answer
      ≡ sends_msg 1 reconnected_response
        ∷ Effect.stops 1
        ∷ sends_msg 2 (ok_response (parse_client_id greeting))
        ∷ [])
    × (get_session reconnected (parse_client_id greeting) ≡ ok (some 2))
    × (handle_disconnect reconnected 1 ≡ ok reconnected)
reconnect_survives_example =
    reconnect_survives clients reconnected greeting 1 2 greeted_answer has_id has_session_1
      (λ e. absurd (omega arith)) reconnects

abbrev server_events : List Event
server_events = gets_message greeting 3 ∷ loses_session 3 ∷ gets_message greeting 4 ∷ []

nobody_there : has_client make_client_list 7 ≡ false
unfolding has_client make_client_list lookup
nobody_there = refl

serve_all_admits_nobody_example : has_client (serve_all make_client_list server_events) 7 ≡ false
serve_all_admits_nobody_example =
    serve_all_admits_nobody make_client_list server_events 7 nobody_there

abbrev session_events : List History.Event
session_events =
    sends (65 ∷ [])
    ∷ sends (66 ∷ [])
    ∷ sends (67 ∷ [])
    ∷ writes_done false
    ∷ writes_done true
    ∷ sends (68 ∷ [])
    ∷ []

run-IsFifo_example :
    IsFifo (History.run new_session session_events) (accepted new_session session_events)
run-IsFifo_example = run-IsFifo session_events
