-- ===== src/Broadcast/Reach.antt =====
-- From a command to the bytes at the sessions.
use stakan.Base.{
  ℕ, ◌≡◌, ◌⊎◌, ◌↔◌, map, true, refl, ap, ◌∙◌, Option, none, some, List, [], ◌∷◌, Fault, Result, ok,
  err, undefined, inl, inr,
}
use mathlib.Core.List.{Mem, Nodup}
use stakan.Wire.{Snapshot, SnapshotFits}
use stakan.Wire.Codec.{serialize_snapshot, deserialize_snapshot}
use stakan.Wire.RoundTrip.{deserialize_snapshot-serialize}
use stakan.Clients.{ClientList, SessionPtr, get_session, get_subscribed_clients, make_client_list}
use stakan.Clients.History.{Call, run}
use stakan.Clients.Lives.{life}
use stakan.Clients.Subscriptions.{get_subscribed_clients_iff}
use stakan.Clients.Inbox.{Delivery, send_to, broadcast_to_certain}
use stakan.Clients.Broadcasts.{receivers, AllCarry, broadcast_to_subscribed_branches}
use stakan.Broadcast.{
  TmpMdUpdate, broadcast_snapshot_command, broadcast_md_update_command, handle_command,
}

-- Every message decodes to the snapshot.
abbrev pub AllDecode : Snapshot → List Delivery → Type 0
AllDecode s [] = Unit {0}
AllDecode s (d ∷ ds) = (deserialize_snapshot d.message ≡ ok s) × AllDecode s ds

decode_all :
    (s : Snapshot) (ds : List Delivery)
    → SnapshotFits s
    → AllCarry (serialize_snapshot s) ds
    → AllDecode s ds
decode_all s [] h all = tt
decode_all s (d ∷ ds) h (e, all) =
    (ap deserialize_snapshot e ∙ deserialize_snapshot-serialize s h, decode_all s ds h all)

-- The list of clients is made by any calls. A snapshot of two full sides whose fields fit in 64 bits, sent
-- to all, reaches the session of every client whom the calls made subscribed, of each once and of nobody
-- else, and each message decodes to that snapshot; or the call is undefined, and a client whom the calls
-- made subscribed has no session.
pub snapshot_reaches_subscribers :
    (cs : List Call) (s : Snapshot)
    → SnapshotFits s
    → let clients : ClientList = run make_client_list cs in
      ((ids : List ℕ) × Nodup ids
        × ((id : ℕ) → Mem id ids ↔ (life id none cs ≡ some true))
        × ((ds : List Delivery) × (handle_command clients (broadcast_snapshot_command none s)
              ≡ ok ds)
            × (map (get_session clients) ids ≡ receivers ds)
            × AllDecode s ds))
      ⊎ ((handle_command clients (broadcast_snapshot_command none s) ≡ err undefined)
          × ((id : ℕ) × (life id none cs ≡ some true) × (get_session clients id ≡ ok none)))
unfolding handle_command broadcast_snapshot_command
snapshot_reaches_subscribers cs s h =
    let (subscribed, once) = get_subscribed_clients_iff cs in
    elim (broadcast_to_subscribed_branches cs (serialize_snapshot s)) [
      | inl (ds, e, same, all) ↦ inl (
        get_subscribed_clients (run make_client_list cs),
        once,
        subscribed,
        (ds, e, same, decode_all s ds h all),
      )
      | inr lost ↦ inr lost
    ]

send_to_client :
    (clients : ClientList) (id : ℕ) (s : Snapshot) (r : Result SessionPtr)
    → SnapshotFits s
    → get_session clients id ≡ r
    → ((p : ℕ) × (r ≡ ok (some p))
        × (d : Delivery) × (handle_command clients (broadcast_snapshot_command (some id) s)
            ≡ ok (d ∷ []))
        × (d.session ≡ p)
        × (deserialize_snapshot d.message ≡ ok s))
      ⊎ ((r ≡ ok none)
          × (handle_command clients (broadcast_snapshot_command (some id) s) ≡ err undefined))
      ⊎ ((e : Fault) × (r ≡ err e)
          × (handle_command clients (broadcast_snapshot_command (some id) s) ≡ err e))
unfolding handle_command broadcast_snapshot_command broadcast_to_certain send_to
send_to_client clients id s (ok (some p)) h e = inl (
  p,
  refl,
  record { session = p; message = serialize_snapshot s },
  rw e refl,
  refl,
  deserialize_snapshot-serialize s h,
)
send_to_client clients id s (ok none) h e = inr (inl (refl, rw e refl))
send_to_client clients id s (err fault) h e = inr (inr (fault, refl, rw e refl))

-- A snapshot of two full sides whose fields fit in 64 bits, for one client, is sent once, to that
-- client's session, and decodes to that snapshot. It is undefined when the client has no session,
-- and fails as `get_session` does when it is not in the list. An update is undefined for every
-- client and for all: its data has another type than the one the worker asks for, so an empty
-- optional is dereferenced.
pub command_branches :
    (clients : ClientList) (id : ℕ) (s : Snapshot) (to : Option ℕ) (u : TmpMdUpdate)
    → SnapshotFits s
    → (handle_command clients (broadcast_md_update_command to u) ≡ err undefined)
      × (((p : ℕ) × (get_session clients id ≡ ok (some p))
            × (d : Delivery) × (handle_command clients (broadcast_snapshot_command (some id) s)
                ≡ ok (d ∷ []))
            × (d.session ≡ p)
            × (deserialize_snapshot d.message ≡ ok s))
          ⊎ ((get_session clients id ≡ ok none)
              × (handle_command clients (broadcast_snapshot_command (some id) s) ≡ err undefined))
          ⊎ ((e : Fault) × (get_session clients id ≡ err e)
              × (handle_command clients (broadcast_snapshot_command (some id) s) ≡ err e)))
unfolding handle_command broadcast_md_update_command
command_branches clients id s to u h =
    (refl, send_to_client clients id s (get_session clients id) h refl)
