-- ===== src/TcpClient/Messages.antt =====
-- The reader thread against the messages that the server encodes.
use stakan.Base.{
  ℕ, suc, ◌≡◌, refl, ◌∙◌, false, List, [], ◌∷◌, some, Result, ok, err, runtime_error, Result-cases,
  Bool-cases, if_true, if_false, ◌==◌, inl, inr, length, get_or, Fault, arith,
}
use stakan.Wire.Codec.{deserialize_snapshot, deserialize_md_update, snapshot_size, md_update_size}
use stakan.Wire.RoundTrip.{deserialize_wrong_size}
use stakan.TcpClient.{on_disconnected, process_message, read_one, read_loop}

module _ {Socket : Type 0} (read : Socket → ℕ → Result (List ℕ × Socket))
    (length-read : (s t : Socket) (n : ℕ) (bytes : List ℕ)
      → read s n ≡ ok (bytes, t)
      → length bytes ≡ n) where
  snapshot_refused :
      (s t : Socket) (bytes : List ℕ)
      → read s snapshot_size ≡ ok (bytes, t)
      → deserialize_snapshot bytes ≡ err runtime_error
  snapshot_refused s t bytes e =
      (deserialize_wrong_size bytes).0.1
        (λ p. absurd (omega (arith, length-read s t snapshot_size bytes e)))

  md_update_refused :
      (s t : Socket) (bytes : List ℕ)
      → read s md_update_size ≡ ok (bytes, t)
      → deserialize_md_update bytes ≡ err runtime_error
  md_update_refused s t bytes e =
      (deserialize_wrong_size bytes).1.1
        (λ p. absurd (omega (arith, length-read s t md_update_size bytes e)))

  -- Whatever the type and the bytes that follow, `ProcessMessage` throws and calls no callback: it
  -- reads the bytes of the struct without the byte of the type, which the decoder counts too.
  pub process_message_throws :
      (type_ : ℕ) (socket : Socket) → (e : Fault) × (process_message read type_ socket ≡ err e)
  unfolding process_message
  process_message_throws type_ socket = elim (Bool-cases (type_ == 0)) [
    | inl is_snapshot ↦ elim (Result-cases (read socket snapshot_size)) [
      | inr (fault, e) ↦ (fault, if_true _ _ is_snapshot ∙ rw e refl)
      | inl ((bytes, later), e) ↦ (
        runtime_error,
        if_true _ _ is_snapshot ∙ rw e (rw (snapshot_refused socket later bytes e) refl),
      )
    ]
    | inr other ↦ elim (Bool-cases (type_ == 3)) [
      | inl is_update ↦ elim (Result-cases (read socket md_update_size)) [
        | inr (fault, e) ↦ (fault, if_false _ _ other ∙ if_true _ _ is_update ∙ rw e refl)
        | inl ((bytes, later), e) ↦ (
          runtime_error,
          if_false _ _ other
              ∙ if_true _ _ is_update
              ∙ rw e (rw (md_update_refused socket later bytes e) refl),
        )
      ]
      | inr unknown ↦ (runtime_error, if_false _ _ other ∙ if_false _ _ unknown)
    ]
  ]

  read_one_throws : (socket : Socket) → (e : Fault) × (read_one read socket ≡ err e)
  unfolding read_one
  read_one_throws socket = elim (Result-cases (read socket 1)) [
    | inr (fault, e) ↦ (fault, rw e refl)
    | inl ((bytes, later), e) ↦
        let (fault, f) = process_message_throws (get_or bytes 0 0) later in (fault, rw e f)
  ]

  -- With a `read` that gives as many bytes as it was asked for, or fails: the reader thread ends in
  -- its first round, for any number of rounds that it is given; the client is disconnected,
  -- `OnDisconnected` is called, and no snapshot and no update reaches the application.
  pub read_loop_delivers_nothing :
      (n : ℕ) (socket : Socket)
      → read_loop read (suc n) socket
        ≡ some (record { connected = false; calls = on_disconnected ∷ [] })
  unfolding read_loop
  read_loop_delivers_nothing n socket =
      let (fault, e) = read_one_throws socket in rw (e, read_loop) refl
