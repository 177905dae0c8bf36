-- ===== src/Clients/Sharing.antt =====
-- A session that two clients share.
use stakan.Base.{
  ℕ, ◌≡◌, ◌≢◌, refl, sym, ◌∙◌, Option, none, some, ◌==◌, if◌then◌else◌, Option-cases, inl, inr,
  ==_of_eq, ==_of_ne,
}
use stakan.Base.Map.{Map, lookup, lookup-erase}
use stakan.Clients.{
  ClientList, ClientContext, SessionPtr, add_session, remove_session, forget_session,
  find_client_id_by_session,
}
use stakan.Clients.Ownership.{session_at, session_at-insert, session_at-erase}

session_at-add :
    (l : ClientList) (id j : ℕ) (s : SessionPtr)
    → session_at (add_session l id s) j ≡ (if id == j then some s else session_at l j)
unfolding add_session
session_at-add l id j s = session_at-insert l id j _ _

session_at-remove :
    (l : ClientList) (id j : ℕ)
    → session_at (remove_session l id) j ≡ (if id == j then none else session_at l j)
unfolding remove_session
session_at-remove l id j = session_at-erase l id j _

forgotten :
    (it : Option ClientContext) (c : ClientContext) (s : ℕ) (m : Map ℕ)
    → it ≡ some c
    → c.session ≡ some s
    → lookup s (forget_session it m) ≡ none
unfolding forget_session
forgotten none c s m e q = cc
forgotten (some d) c s m e q =
    let same : d.session ≡ some s = cc in
    rw (same, forget_session) (lookup-erase s s m ∙ rw (==_of_eq s s refl))

session_of :
    (l : ClientList) (id s : ℕ)
    → session_at l id ≡ some (some s)
    → (c : ClientContext) × (lookup id l.clients ≡ some c) × (c.session ≡ some s)
unfolding session_at
session_of l id s h = elim (Option-cases (lookup id l.clients)) [
  | inl e ↦ cc (rw (e, session_at) at h)
  | inr (c, e) ↦ (c, e, some_eq (rw (e, session_at) at h))
]
  where
    some_eq : {p q : SessionPtr} → some p ≡ some q → p ≡ q
    some_eq e = cc

remove_session-forgets :
    (l : ClientList) (id s : ℕ)
    → session_at l id ≡ some (some s)
    → find_client_id_by_session (remove_session l id) s ≡ none
unfolding find_client_id_by_session remove_session
remove_session-forgets l id s h =
    let (c, e, q) = session_of l id s h in
    forgotten (lookup id l.clients) c s l.session_to_client e q

-- A session that is given to a second client, which is then removed, still is the first one's
-- session, and is looked up as nobody's.
pub shared_session_lost :
    (l : ClientList) (a b s : ℕ)
    → a ≢ b
    → let m = remove_session (add_session (add_session l a (some s)) b (some s)) b in
      (session_at m a ≡ some (some s)) × (find_client_id_by_session m s ≡ none)
shared_session_lost l a b s h =
    let two = add_session (add_session l a (some s)) b (some s) in
    (
      session_at-remove two b a
          ∙ rw (==_of_ne b a (λ e. h (sym e))) (
              session_at-add (add_session l a (some s)) b a (some s)
              ∙ rw (==_of_ne b a (λ e. h (sym e)))
                  (session_at-add l a a (some s) ∙ rw (==_of_eq a a refl))),
      remove_session-forgets two b s
          (session_at-add (add_session l a (some s)) b b (some s) ∙ rw (==_of_eq b b refl)),
    )
