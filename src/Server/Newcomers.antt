-- ===== src/Server/Newcomers.antt =====
-- Clients that are not in the list: no handler of the server adds one.
use stakan.Base.{
  ℕ, ◌≡◌, refl, ap, ◌∙◌, false, List, [], ◌∷◌, none, some, Option-cases, Bool-cases, ◌↔◌, inl, inr,
  ◌==◌, ==_of_ne, if_true, if_false,
}
use stakan.Base.Map.{lookup, lookup-insert, lookup-erase}
use stakan.Clients.{ClientList, ClientContext, has_client, add_session, remove_session, put_context}
use stakan.Clients.History.{after}
use stakan.Server.{parse_client_id, handle_message, handle_disconnect}
use stakan.Server.Admission.{greet, handle_message_cases}
use stakan.Server.Reconnect.{handle_disconnect_branches}
use stakan.Server.History.{Event, gets_message, loses_session, list_after, serve, serve_all}

greet_lacks :
    (l : ClientList) (id session j : ℕ) (c : ClientContext)
    → lookup id l.clients ≡ some c
    → lookup j l.clients ≡ none
    → lookup j (greet l id session c).clients ≡ none
unfolding greet put_context add_session
greet_lacks l id session j c e h =
    let other = ==_of_ne id j (λ p. cc (e, h, ap (λ k. lookup k l.clients) p)) in
    lookup-insert id j _ _
    ∙ if_false _ _ other
    ∙ lookup-insert id j _ l.clients
    ∙ if_false _ _ other
    ∙ h

message_lacks :
    (l : ClientList) (frame : List ℕ) (session j : ℕ)
    → lookup j l.clients ≡ none
    → lookup j (list_after l (handle_message l frame session)).clients ≡ none
message_lacks l frame session j h = elim (handle_message_cases l frame session) [
  | inl (z, r) ↦ ap (λ r. lookup j (list_after l r).clients) r ∙ h
  | inr (inl (z, r)) ↦ ap (λ r. lookup j (list_after l r).clients) r ∙ h
  | inr (inr (c, e, r)) ↦
      ap (λ r. lookup j (list_after l r).clients) r
      ∙ greet_lacks l (parse_client_id frame) session j c e h
]

remove_lacks :
    (l : ClientList) (id j : ℕ)
    → lookup j l.clients ≡ none
    → lookup j (remove_session l id).clients ≡ none
unfolding remove_session
remove_lacks l id j h = elim (Bool-cases (id == j)) [
  | inl e ↦ lookup-erase id j l.clients ∙ if_true _ _ e
  | inr e ↦ lookup-erase id j l.clients ∙ if_false _ _ e ∙ h
]

disconnect_lacks :
    (l : ClientList) (session j : ℕ)
    → lookup j l.clients ≡ none
    → lookup j (after l (handle_disconnect l session)).clients ≡ none
disconnect_lacks l session j h = elim (handle_disconnect_branches l session) [
  | inl (e, r) ↦ ap (λ r. lookup j (after l r).clients) r ∙ h
  | inr (id, e, inl (there, r)) ↦ ap (λ r. lookup j (after l r).clients) r ∙ remove_lacks l id j h
  | inr (id, e, inr (inl (current, there, other, r))) ↦ ap (λ r. lookup j (after l r).clients) r ∙ h
  | inr (id, e, inr (inr (gone, r))) ↦ ap (λ r. lookup j (after l r).clients) r ∙ h
]

serve_lacks :
    (l : ClientList) (e : Event) (j : ℕ)
    → lookup j l.clients ≡ none
    → lookup j (serve l e).clients ≡ none
unfolding serve
serve_lacks l (gets_message frame session) j h = message_lacks l frame session j h
serve_lacks l (loses_session session) j h = disconnect_lacks l session j h

serve_all_lacks :
    (l : ClientList) (es : List Event) (j : ℕ)
    → lookup j l.clients ≡ none
    → lookup j (serve_all l es).clients ≡ none
unfolding serve_all
serve_all_lacks l [] j h = h
serve_all_lacks l (e ∷ es) j h = serve_all_lacks (serve l e) es j (serve_lacks l e j h)

lacks_of_has_client :
    (l : ClientList) (id : ℕ) → (has_client l id ≡ false) ↔ (lookup id l.clients ≡ none)
unfolding has_client
lacks_of_has_client l id = elim (Option-cases (lookup id l.clients)) [
  | inl e ↦ rw (e, has_client) (λ x. refl, λ x. refl)
  | inr (c, e) ↦ rw (e, has_client) (λ x. cc, λ x. cc)
]

-- A client that is not in the list is not in it after any sequence of messages and disconnects of
-- sessions: the server never lets a new client in.
pub serve_all_admits_nobody :
    (l : ClientList) (es : List Event) (id : ℕ)
    → has_client l id ≡ false
    → has_client (serve_all l es) id ≡ false
serve_all_admits_nobody l es id h =
    (lacks_of_has_client (serve_all l es) id).1
      (serve_all_lacks l es id ((lacks_of_has_client l id).0 h))
