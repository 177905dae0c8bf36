-- ===== src/TcpClient/Flags.antt =====
-- The flag of `TcpClient` behind `Disconnect` and behind the writing of a line.
use stakan.Base.{
  ℕ, ◌≡◌, refl, ap, ◌∙◌, Bool, true, false, not, List, [], ◌∷◌, ◌++◌, Bool-cases, inl, inr,
  if◌then◌else◌, if_true, if_false,
}
use stakan.TcpClient.{on_error}
use stakan.TcpClient.Connection.{
  TcpClient, Thread, no_thread, reading, ended, call, join, disconnect, send_line,
}

join_connected :
    (t : TcpClient) (thread : Thread) (by_exception : Bool)
    → (join t thread by_exception).connected ≡ t.connected
join_connected t no_thread b = refl
join_connected t reading true = refl
join_connected t reading false = refl
join_connected t ended b = refl

pub disconnect_connected :
    (t : TcpClient) (by_exception : Bool) → (disconnect t by_exception).connected ≡ false
unfolding disconnect
disconnect_connected t b = elim (Bool-cases t.connected) [
  | inl on ↦
      ap (λ (t : TcpClient). t.connected) (if_true _ _ on)
      ∙ join_connected (record t { connected = false }) t.io_thread b
  | inr off ↦ ap (λ (t : TcpClient). t.connected) (if_false _ _ off) ∙ off
]

-- Writing a line leaves the connection as it is.
pub send_line_connected :
    (t : TcpClient) (line : List ℕ) (writes : Bool)
    → (send_line t line writes).0.connected ≡ t.connected
unfolding send_line
send_line_connected t line writes = elim (Bool-cases t.connected) [
  | inl on ↦
      ap (λ (r : TcpClient × Bool). r.0.connected) (if_false _ _ (ap not on))
      ∙ written t line writes
  | inr off ↦ ap (λ (r : TcpClient × Bool). r.0.connected) (if_true _ _ (ap not off))
]
  where
    written :
        (t : TcpClient) (line : List ℕ) (writes : Bool)
        → (let r : TcpClient × Bool =
              (if writes
                then (record t { written = t.written ++ (line ∷ []) }, true)
                else (call t on_error, false)) in
            r.0.connected ≡ t.connected)
    written t line true = refl
    written t line false = refl
