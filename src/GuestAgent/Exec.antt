-- ===== src/GuestAgent/Exec.antt =====
-- internal/guestagent/client.go and cmd/cw-guest-agent/main.go: a command that the host runs in the
-- guest.
use codewire.Base.{
  ℕ, zero, suc, ◌-◌, ◌<◌, ◌≡◌, refl, ap, ◌∙◌, subst, inl, inr, some, List, [], ◌∷◌, ◌++◌, arith,
  length, All, All-map, append-nil,
}
use codewire.Base.Text.{Text, ◌=ᵗ◌}
use codewire.Base.Json.{Json}
use codewire.Base.Result.{ok}
use codewire.Protocol.Bytes.{read_eof, stop_error, End, eof, Reader, read_full}
use codewire.Protocol.Frame.{buffer}
use codewire.GuestAgent.{
  Request, Response, MessageError, reading, message, failed, length_read, read_message,
}
use codewire.GuestAgent.Console.{concat, shown, show_chunks, show_chunks_lem, written-merged}
use codewire.GuestAgent.Loop.{MessageRead-cases, exec_loop-run}
use codewire.GuestAgent.Client.{exec_request, Console, exec}
use codewire.GuestAgent.Agent.{
  Command, Pipe, stdout, stderr, Wait, Started, started, command_of, output_response, exit_response,
  exit_code, run, send, handle_exec, handle_request, handle_connection,
}
use codewire.GuestAgent.Streams.{
  twice, merged, IsWritten, IsWrittenChunk, send_chunks, alternate-twice, merged-IsWritten,
}
use codewire.GuestAgent.Packets.{
  Carries, packet, write_message-buffer, read_message-packet, read_message_shorter,
}

module _ (request : Json Request) (json : Json Response) (environ : List Text)
    (start : Command → Started) where
  serve_failed :
      (rounds : ℕ) (r : Reader) (w : Text) (e : MessageError)
      → 0 < rounds
      → read_message request r ≡ failed e
      → handle_connection json buffer request environ start rounds r w ≡ some w
  unfolding handle_connection
  serve_failed zero r w e h k = absurd (omega arith)
  serve_failed (suc rounds) r w e h k = rw (k, handle_connection) refl

  serve_message :
      (rounds : ℕ) (r q : Reader) (w : Text) (m : Request)
      → 0 < rounds
      → read_message request r ≡ message m q
      → handle_connection json buffer request environ start rounds r w
        ≡ handle_connection json buffer request environ start
            (rounds - 1)
            q
            (handle_request json buffer request environ start w m)
  unfolding handle_connection
  serve_message zero r q w m h k = absurd (omega arith)
  serve_message (suc rounds) r q w m h k =
      rw (k, handle_connection)
        (ap
          (λ left.
            handle_connection json buffer request environ start left q
              (handle_request json buffer request environ start w m))
          (omega arith))

  -- The agent ends with its connection.
  pub handle_connection_ends :
      (rounds : ℕ) (r : Reader) (w : Text)
      → length r.bytes < rounds
      → (t : Text) × (handle_connection json buffer request environ start rounds r w ≡ some t)
  handle_connection_ends zero r w h = absurd (omega arith)
  handle_connection_ends (suc rounds) r w h = elim (MessageRead-cases (read_message request r)) [
    | inl (e, k) ↦ (_, serve_failed (suc rounds) r w e (omega arith) k)
    | inr (m, q, k) ↦
        let shorter = read_message_shorter request r q m k in
        let (t, f) =
          handle_connection_ends rounds q (handle_request json buffer request environ start w m)
            (omega arith) in
        (
          t,
          serve_message (suc rounds) r q w m (omega arith) k
              ∙ ap
                  (λ left.
                    handle_connection json buffer request environ start left q
                      (handle_request json buffer request environ start w m))
                  (omega arith)
              ∙ f,
        )
  ]

  no_message : read_message request (record { bytes = []; end = eof }) ≡ failed (reading read_eof)
  unfolding read_message length_read read_full stop_error
  no_message = refl

  -- The connection of a host that asks for one command and then closes it.
  serve_exec :
      (name workdir : Text) (args : List Text) (process : Started) (rounds : ℕ)
      (h : Carries request (exec_request (name ∷ args) workdir))
      → start (command_of environ name args workdir) ≡ process
      → 1 < rounds
      → handle_connection json buffer request environ start rounds
          (record { bytes = packet h.text; end = eof })
          []
        ≡ some (run json buffer [] process)
  unfolding handle_request handle_exec
  serve_exec name workdir args process rounds h starts n =
      let req = exec_request (name ∷ args) workdir in
      let first =
        subst
          (λ s.
            read_message request (record { bytes = s; end = eof })
            ≡ message req (record { bytes = []; end = eof }))
          (append-nil (packet h.text)) (read_message-packet request req h [] eof) in
      serve_message rounds _ _ [] req (omega arith) first
      ∙ unfold ◌=ᵗ◌ in
        rw starts (serve_failed (rounds - 1) _ _ (reading read_eof) (omega arith) no_message)

  run-twice :
      (order : List Pipe) (outs errs : List Text) (status : Wait)
      → All (IsWritten json stdout) outs
      → All (IsWritten json stderr) errs
      → run json buffer [] (started outs errs (twice order) status)
        ≡ send json buffer (send_chunks json [] (merged order outs errs)) (exit_response status)
  unfolding run
  run-twice order outs errs status h k =
      ap (λ w. send json buffer w (exit_response status))
        (alternate-twice json order [] outs errs h k)

  shown-merged :
      (c : Console) (order : List Pipe) (outs errs : List Text)
      → show_chunks c (merged order outs errs)
        ≡ record { stdout = c.stdout ++ concat outs; stderr = c.stderr ++ concat errs }
  shown-merged c order outs errs =
      let (a, b) = written-merged order outs errs in
      show_chunks_lem c (merged order outs errs) ∙ unfold shown in rw (a, b) refl

  -- A command that the agent can start, whose reads gave bytes and whose messages JSON carries
  -- in texts of an allowed size, and whose two goroutines each make the two writes of a message
  -- in a row, is answered by the agent to a host that asked for it and closed its side; and of
  -- these bytes, whatever stands behind them, the host's Exec comes to its end, with the exit
  -- code of the process, when all that was read of each pipe was shown on its stream, in the
  -- order in which it was read and in whatever order the messages of the two came. More fuel
  -- than there are bytes is enough.
  pub exec-handle_connection :
      (name workdir : Text) (args : List Text) (outs errs : List Text) (order : List Pipe)
      (status : Wait) (rounds : ℕ) (c : Console) (rest : Text) (e : End)
      → start (command_of environ name args workdir) ≡ started outs errs (twice order) status
      → Carries request (exec_request (name ∷ args) workdir)
      → All (IsWritten json stdout) outs
      → All (IsWritten json stderr) errs
      → Carries json (exit_response status)
      → 1 < rounds
      → (answer : Text) × (handle_connection json buffer request environ start rounds
            (record {
              bytes =
                  (exec request json buffer 0 []
                    (record { bytes = []; end = eof })
                    c
                    (name ∷ args)
                    workdir).1;
              end = eof;
            })
            []
          ≡ some answer)
        × ((fuel : ℕ)
            → length answer < fuel
            → (exec request json buffer fuel []
                (record { bytes = answer ++ rest; end = e })
                c
                (name ∷ args)
                workdir).0
              ≡ some (record {
                result = ok (exit_code status);
                console = record {
                  stdout = c.stdout ++ concat outs;
                  stderr = c.stderr ++ concat errs;
                };
              }))
  unfolding exec
  exec-handle_connection name workdir args outs errs order status rounds c rest e starts h k m l n =
      let req = exec_request (name ∷ args) workdir in
      let carried =
        All-map (IsWrittenChunk json) (λ x. Carries json (output_response x.pipe x.bytes))
          (merged order outs errs) (λ x written. written.1)
          (merged-IsWritten json order outs errs k m) in
      let (t, ran, looped) =
        exec_loop-run json (merged order outs errs) [] status c rest e carried l in
      (
        t,
        rw (write_message-buffer request req h []) (
            serve_exec name workdir args (started outs errs (twice order) status) rounds h starts n
            ∙ ap some (run-twice order outs errs status k m ∙ ran)),
        λ fuel m. rw (write_message-buffer request req h []) (
            looped fuel m
            ∙ ap (λ d. some (record { result = ok (exit_code status); console = d }))
                (shown-merged c order outs errs)),
      )
