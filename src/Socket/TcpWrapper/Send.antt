-- ===== src/Socket/TcpWrapper/Send.antt =====
-- Sending over TCP.
use distributed_hash_table.Prelude.{
  ℕ, ◌+◌, ◌≡◌, refl, ap, List, [], ◌∷◌, ◌++◌, ok, >>=-eq-ok, arith, ltb, length, take, drop,
  take-append-drop, Bool-cases, inl, inr, length-drop, le→ltb,
}
use distributed_hash_table.Pdu.Message.{Pdu, to_bytes}
use distributed_hash_table.Socket.TcpWrapper.{
  Write, wrote, write_would_block, write_failed, send_loop, send,
}

send_loop-eq :
    (answers : List Write) (bytes out : List ℕ) → send_loop answers bytes ≡ ok out → out ≡ bytes
unfolding send_loop
send_loop-eq answers [] out h = ground arith
send_loop-eq [] (b ∷ bytes) out h = cc
send_loop-eq (wrote amt ∷ answers) (b ∷ bytes) out h =
    elim (Bool-cases (ltb (length (b ∷ bytes)) amt)) [
      | inl e ↦ ground arith
      | inr e ↦
          let (later, e', f) =
            >>=-eq-ok (send_loop answers (drop amt (b ∷ bytes)))
              (λ later. ok (take amt (b ∷ bytes) ++ later)) (rw e at h) in
          let ih = send_loop-eq answers (drop amt (b ∷ bytes)) later e' in
          ground (arith, take-append-drop amt (b ∷ bytes))
    ]
send_loop-eq (write_would_block ∷ answers) (b ∷ bytes) out h =
    send_loop-eq answers (b ∷ bytes) out h
send_loop-eq (write_failed ∷ answers) (b ∷ bytes) out h = cc

-- However the system splits the writes and however often it is not ready, when the send of a
-- TcpWrapper returns, what the system took is the bytes of the message, whole and in order.
pub send_whole :
    (answers : List Write) (pdu : Pdu) (out : List ℕ)
    → send answers pdu ≡ ok out
    → out ≡ to_bytes pdu
unfolding send
send_whole answers pdu out h = send_loop-eq answers (to_bytes pdu) out h

-- The answers never fail, each takes what is there at most, and together they take `n` bytes.
abbrev pub Serves : List Write → ℕ → Type 0
Serves [] n = n ≡ 0
Serves (wrote amt ∷ answers) n = (m : ℕ) × (n ≡ amt + m) × Serves answers m
Serves (write_would_block ∷ answers) n = Serves answers n
Serves (write_failed ∷ answers) n = ⊥

send_loop_returns :
    (answers : List Write) (bytes : List ℕ)
    → Serves answers (length bytes)
    → send_loop answers bytes ≡ ok bytes
unfolding send_loop
send_loop_returns answers [] s = refl
send_loop_returns [] (b ∷ bytes) s = absurd (omega arith)
send_loop_returns (wrote amt ∷ answers) (b ∷ bytes) (m, e, s) =
    let k : length (drop amt (b ∷ bytes)) ≡ m = omega (arith, length-drop amt (b ∷ bytes)) in
    rw
      (
        le→ltb (length (b ∷ bytes)) amt (omega arith),
        send_loop_returns answers (drop amt (b ∷ bytes)) (rw k s),
      )
      (ap ok (take-append-drop amt (b ∷ bytes)))
send_loop_returns (write_would_block ∷ answers) (b ∷ bytes) s =
    send_loop_returns answers (b ∷ bytes) s
send_loop_returns (write_failed ∷ answers) (b ∷ bytes) s = absurd s

-- If the writes do not fail, each takes at most what is left, and together they take as many bytes
-- as the message has, the send of a TcpWrapper returns with all bytes sent.
pub send_returns :
    (answers : List Write) (pdu : Pdu)
    → Serves answers (length (to_bytes pdu))
    → send answers pdu ≡ ok (to_bytes pdu)
unfolding send
send_returns answers pdu s = send_loop_returns answers (to_bytes pdu) s
