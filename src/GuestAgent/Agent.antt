-- ===== src/GuestAgent/Agent.antt =====
-- cmd/cw-guest-agent/main.go: the agent. A process is what `os/exec` makes of a command: it does
-- not start, or its two pipes are read until both end, and it is waited for. The two goroutines that
-- read the pipes write to one connection without a lock: the order of their writes is given.
use codewire.Base.{
  ℕ, zero, suc, Bool, true, false, ◌&&◌, Option, none, some, List, [], ◌∷◌, ◌++◌, ltb,
  if◌then◌else◌, length, take,
}
use codewire.Base.Text.{Text, codes, ◌=ᵗ◌}
use codewire.Base.Int.{ℤ, pos}
use codewire.Base.Json.{Json}
use codewire.Protocol.Bytes.{Reader}
use codewire.Protocol.Frame.{Writer}
use codewire.GuestAgent.{
  Request, Response, write_message, write_length, write_text, message, failed, read_message,
}

pub record Command : Type 0 where
  pub name : Text
  pub args : List Text
  pub dir : Text
  pub env : List Text

pub data Pipe : Type 0 where
  stdout stderr : Pipe

-- The error of `cmd.Wait`.
pub data Wait : Type 0 where
  success wait_failed : Wait
  exit_error : ℤ → Wait

pub data Started : Type 0 where
  not_started : Text → Started
  -- What each `Read` of the pipes gave, and in which order the goroutines write; where the order ends
  -- the one on the standard output writes its rest, and then the other.
  started : List Text → List Text → List Pipe → Wait → Started

unfoldable pub has_path : List Text → Bool
has_path [] = false
has_path (e ∷ env) = if ltb 5 (length e) && (take 5 e =ᵗ codes "PATH=") then true else has_path env

unfoldable pub command_env : List Text → List Text
unfolding has_path
command_env env =
    if has_path env
    then env
    else env ++ codes "PATH=/usr/local/sbin:/usr/local/bin:/usr/sbin:/usr/bin:/sbin:/bin" ∷ []

unfoldable pub command_of : List Text → Text → List Text → Text → Command
unfolding command_env
command_of environ name args workdir = record {
  name = name;
  args = args;
  dir = workdir;
  env = command_env environ;
}

abbrev pub stream_name : Pipe → Text
stream_name stdout = codes "stdout"
stream_name stderr = codes "stderr"

abbrev pub pong : Response
pong = record { type = codes "Pong"; content = []; stream = []; exit_code = pos 0; message = [] }

abbrev pub error_response : Text → Response
error_response s = record {
  type = codes "Error";
  content = [];
  stream = [];
  exit_code = pos 0;
  message = s;
}

abbrev pub output_response : Pipe → Text → Response
output_response pipe bytes = record {
  type = codes "Output";
  content = bytes;
  stream = stream_name pipe;
  exit_code = pos 0;
  message = [];
}

abbrev pub exit_code : Wait → ℤ
exit_code success = pos 0
exit_code (exit_error n) = n
exit_code wait_failed = pos 1

abbrev pub exit_response : Wait → Response
exit_response e = record {
  type = codes "Exit";
  content = [];
  stream = [];
  exit_code = exit_code e;
  message = [];
}

-- A goroutine: the text whose length it has written, and what it still has to write.
pub record Goroutine : Type 0 where
  pub pending : Option Text
  pub left : List Text

module _ {ℓ} {W : Type ℓ} (response : Json Response) (io : Writer W) where
  -- A message whose error is not looked at.
  unfoldable pub send : W → Response → W
  send w m = (write_message response io w m).1

  -- The texts that the goroutine of a pipe has to write, one for each read that gave bytes.
  unfoldable pub texts : Pipe → List Text → List Text
  texts pipe [] = []
  texts pipe (s ∷ reads) =
      let rest = texts pipe reads in
      if ltb 0 (length s)
      then elim (response.marshal (output_response pipe s)) [ none ↦ rest | some t ↦ t ∷ rest ]
      else rest

  unfoldable pub new_goroutine : Pipe → List Text → Goroutine
  unfolding texts
  new_goroutine pipe reads = record { pending = none; left = texts pipe reads }

  -- A goroutine makes its next write, of a length, or of the text behind it.
  unfoldable pub advance_from : W → Option Text → List Text → W × Goroutine
  advance_from w (some s) left = ((io.write w s).1, record { pending = none; left = left })
  advance_from w none [] = (w, record { pending = none; left = [] })
  advance_from w none (s ∷ left) =
      let (written, v) = write_length io w s in
      (v, record { pending = if written then some s else none; left = left })

  unfoldable pub advance : W → Goroutine → W × Goroutine
  unfolding advance_from
  advance w g = advance_from w g.pending g.left

  unfoldable pub write_texts : W → List Text → W
  write_texts w [] = w
  write_texts w (s ∷ left) = write_texts (write_text io w s).1 left

  -- A goroutine makes all of its writes.
  unfoldable pub finish_from : W → Option Text → List Text → W
  unfolding write_texts
  finish_from w (some s) left = write_texts (io.write w s).1 left
  finish_from w none left = write_texts w left

  unfoldable pub finish : W → Goroutine → W
  unfolding finish_from
  finish w g = finish_from w g.pending g.left

  -- The writes of the two goroutines.
  unfoldable pub alternate : List Pipe → W → Goroutine → Goroutine → W
  unfolding advance finish
  alternate [] w g h = finish (finish w g) h
  alternate (stdout ∷ order) w g h = let (v, g1) = advance w g in alternate order v g1 h
  alternate (stderr ∷ order) w g h = let (v, h1) = advance w h in alternate order v g h1

  unfoldable pub run : W → Started → W
  unfolding send alternate new_goroutine
  run w (not_started e) = send w (error_response (codes "start: " ++ e))
  run w (started outs errs order e) =
      send (alternate order w (new_goroutine stdout outs) (new_goroutine stderr errs))
        (exit_response e)

  module _ (request : Json Request) (environ : List Text) (start : Command → Started) where
    -- `handleExec`.
    unfoldable pub handle_exec : W → List Text → Text → W
    unfolding run
    handle_exec w [] workdir = send w (error_response (codes "empty command"))
    handle_exec w (name ∷ args) workdir = run w (start (command_of environ name args workdir))

    unfoldable pub handle_request : W → Request → W
    unfolding handle_exec
    handle_request w req =
        if req.type =ᵗ codes "Ping"
        then send w pong
        else if req.type =ᵗ codes "Exec"
        then handle_exec w req.command req.workdir
        else send w (error_response (codes "unknown request type: " ++ req.type))

    -- `handleConnection`; none where the fuel does not suffice.
    unfoldable pub handle_connection : ℕ → Reader → W → Option W
    unfolding handle_request
    handle_connection zero r w = none
    handle_connection (suc fuel) r w = elim (read_message request r) [
      | failed e ↦ some w
      | message req q ↦ handle_connection fuel q (handle_request w req)
    ]
