-- ===== src/GuestAgent/Loop.antt =====
-- internal/guestagent/client.go: the loop of Exec, and the answer to a command.
use codewire.Base.{
  ℕ, zero, suc, ◌-◌, ◌<◌, ◌≤◌, true, false, ◌≡◌, refl, ap, ◌∙◌, ◌⊎◌, inl, inr, some, List, [], ◌∷◌,
  ◌++◌, arith, ltb, length, All, append_assoc, length-append, Bool-cases,
}
use codewire.Base.Text.{Text, ◌=ᵗ◌}
use codewire.Base.Json.{Json}
use codewire.Base.Int.{ℤ}
use codewire.Base.Result.{Result, ok, err}
use codewire.Protocol.Bytes.{End, Reader}
use codewire.Protocol.Frame.{buffer}
use codewire.GuestAgent.{Response, MessageError, MessageRead, message, failed, read_message}
use codewire.GuestAgent.Console.{show_chunk, show_chunks}
use codewire.GuestAgent.Client.{
  ExecError, Console, Next, again, returns, read_failed, show, handle_response, Ended, exec_loop,
}
use codewire.GuestAgent.Agent.{Wait, output_response, exit_response, exit_code, send}
use codewire.GuestAgent.Streams.{Chunk, send_chunk, send_chunks, send-buffer}
use codewire.GuestAgent.Packets.{
  Carries, packet, length-packet, read_message-packet, read_message_shorter,
}

pub MessageRead-cases :
    {A : Type 0} (x : MessageRead A)
    → ((e : _) × (x ≡ failed e)) ⊎ ((m : A) × (q : Reader) × (x ≡ message m q))
MessageRead-cases (failed e) = inl (e, refl)
MessageRead-cases (message m q) = inr (m, q, refl)

Next-cases : (x : Next) → ((e : _) × (x ≡ returns e)) ⊎ ((c : Console) × (x ≡ again c))
Next-cases (returns e) = inl (e, refl)
Next-cases (again c) = inr (c, refl)

module _ (json : Json Response) where
  -- One round of the loop.
  pub loop_failed :
      (fuel : ℕ) (r : Reader) (c : Console) (e : MessageError)
      → 0 < fuel
      → read_message json r ≡ failed e
      → exec_loop json fuel r c ≡ some (record { result = err (read_failed e); console = c })
  unfolding exec_loop
  loop_failed zero r c e h k = absurd (omega arith)
  loop_failed (suc fuel) r c e h k = rw (k, exec_loop) refl

  loop_returns :
      (fuel : ℕ) (r q : Reader) (c : Console) (m : Response) (x : Result ExecError ℤ)
      → 0 < fuel
      → read_message json r ≡ message m q
      → handle_response m c ≡ returns x
      → exec_loop json fuel r c ≡ some (record { result = x; console = c })
  unfolding exec_loop
  loop_returns zero r q c m x h k n = absurd (omega arith)
  loop_returns (suc fuel) r q c m x h k n = rw (k, n, exec_loop) refl

  loop_again :
      (fuel : ℕ) (r q : Reader) (c d : Console) (m : Response)
      → 0 < fuel
      → read_message json r ≡ message m q
      → handle_response m c ≡ again d
      → exec_loop json fuel r c ≡ exec_loop json (fuel - 1) q d
  unfolding exec_loop
  loop_again zero r q c d m h k n = absurd (omega arith)
  loop_again (suc fuel) r q c d m h k n =
      rw (k, n, exec_loop) (ap (λ left. exec_loop json left q d) (omega arith))

  -- Whatever the agent sends, the loop of Exec comes to an end on any bytes, when the connection
  -- ends behind them: as much fuel as there are bytes, and one, is enough, and more gives the
  -- same.
  pub exec_loop_ends :
      (fuel : ℕ) (r : Reader) (c : Console)
      → length r.bytes < fuel
      → (x : Ended) × ((more : ℕ) → fuel ≤ more → exec_loop json more r c ≡ some x)
  exec_loop_ends zero r c h = absurd (omega arith)
  exec_loop_ends (suc fuel) r c h = elim (MessageRead-cases (read_message json r)) [
    | inl (e, k) ↦ (_, λ more l. loop_failed more r c e (omega arith) k)
    | inr (m, q, k) ↦ elim (Next-cases (handle_response m c)) [
      | inl (x, n) ↦ (_, λ more l. loop_returns more r q c m x (omega arith) k n)
      | inr (d, n) ↦
          let shorter = read_message_shorter json r q m k in
          let (x, f) = exec_loop_ends fuel q d (omega arith) in
          (x, λ more l. loop_again more r q c d m (omega arith) k n ∙ f (more - 1) (omega arith))
    ]
  ]

  send_chunks-empty :
      (x : Chunk) (xs : List Chunk) (w : Text)
      → ltb 0 (length x.bytes) ≡ false
      → send_chunks json w (x ∷ xs) ≡ send_chunks json w xs
  unfolding send_chunks send_chunk
  send_chunks-empty x xs w h = rw h refl

  send_chunks-output :
      (x : Chunk) (xs : List Chunk) (w : Text) (k : Carries json (output_response x.pipe x.bytes))
      → ltb 0 (length x.bytes) ≡ true
      → send_chunks json w (x ∷ xs) ≡ send_chunks json (w ++ packet k.text) xs
  unfolding send_chunks send_chunk
  send_chunks-output x xs w k h = rw (h, send-buffer json w (output_response x.pipe x.bytes) k) refl

  -- What the loop does with the answer to a command that has started.
  pub exec_loop-run :
      (chunks : List Chunk) (w : Text) (status : Wait) (c : Console) (rest : Text) (e : End)
      → All (λ x. Carries json (output_response x.pipe x.bytes)) chunks
      → Carries json (exit_response status)
      → (t : Text) × (send json buffer (send_chunks json w chunks) (exit_response status) ≡ w ++ t)
        × ((fuel : ℕ)
            → length t < fuel
            → exec_loop json fuel (record { bytes = t ++ rest; end = e }) c
              ≡ some (record { result = ok (exit_code status); console = show_chunks c chunks }))
  unfolding show_chunks show_chunk handle_response
  exec_loop-run [] w status c rest e h k = (
    packet k.text,
    unfold send_chunks in send-buffer json w (exit_response status) k,
    λ fuel l.
        loop_returns fuel _ _ c (exit_response status) (ok (exit_code status)) (omega arith)
          (read_message-packet json (exit_response status) k rest e) (unfold ◌=ᵗ◌ in refl),
  )
  exec_loop-run (x ∷ xs) w status c rest e h k = elim (Bool-cases (ltb 0 (length x.bytes))) [
    | inl p ↦
        let (t, ran, looped) =
          exec_loop-run xs (w ++ packet h.0.text) status (show (output_response x.pipe x.bytes) c)
            rest e h.1 k in
        (
          packet h.0.text ++ t,
          rw (send_chunks-output x xs w h.0 p) (ran ∙ append_assoc w (packet h.0.text) t),
          λ fuel l.
              rw (p, append_assoc (packet h.0.text) t rest)
                (loop_again fuel _ _ c (show (output_response x.pipe x.bytes) c)
                    (output_response x.pipe x.bytes) (omega arith)
                    (read_message-packet json (output_response x.pipe x.bytes) h.0 (t ++ rest) e)
                    (unfold ◌=ᵗ◌ in refl)
                  ∙ looped (fuel - 1)
                      (omega (arith, length-append (packet h.0.text) t, length-packet h.0.text))),
        )
    | inr p ↦
        let (t, ran, looped) = exec_loop-run xs w status c rest e h.1 k in
        (t, rw (send_chunks-empty x xs w p) ran, λ fuel l. rw p (looped fuel l))
  ]
