-- ===== src/GuestAgent/Client.antt =====
-- internal/guestagent/client.go: the host's requests to the agent. The connection is a writer, and
-- a reader of the bytes that the agent sends.
use codewire.Base.{ℕ, zero, suc, not, Option, none, some, List, [], ◌++◌, if◌then◌else◌}
use codewire.Base.Text.{Text, codes, ◌=ᵗ◌}
use codewire.Base.Int.{ℤ, pos}
use codewire.Base.Json.{Json}
use codewire.Base.Result.{Result, ok, err}
use codewire.Protocol.Bytes.{Reader, read_eof}
use codewire.Protocol.Frame.{Writer}
use codewire.GuestAgent.{
  Request, Response, write_message, MessageError, reading, MessageRead, message, failed,
  read_message,
}

abbrev pub ping_request : Request
ping_request = record { type = codes "Ping"; command = []; workdir = []; port = pos 0 }

pub data PingError : Type 0 where
  sending : PingError
  receiving : MessageError → PingError
  unexpected : Text → PingError

unfoldable pub ping_answer : MessageRead Response → Option PingError
ping_answer (failed e) = some (receiving e)
ping_answer (message m r) = if not (m.type =ᵗ codes "Pong") then some (unexpected m.type) else none

-- `Ping`; none where it returns nil.
unfoldable pub ping {ℓ} :
    {W : Type ℓ} → Json Request → Json Response → Writer W → W → Reader → Option PingError × W
unfolding ping_answer
ping request response io w r =
    let (sent, w1) = write_message request io w ping_request in
    if sent then (ping_answer (read_message response r), w1) else (some sending, w1)

abbrev pub exec_request : List Text → Text → Request
exec_request command workdir = record {
  type = codes "Exec";
  command = command;
  workdir = workdir;
  port = pos 0;
}

-- What was written to the streams of the host's process.
pub record Console : Type 0 where
  pub stdout : Text
  pub stderr : Text

unfoldable pub show : Response → Console → Console
show m c =
    if m.stream =ᵗ codes "stderr"
    then record c { stderr = c.stderr ++ m.content }
    else record c { stdout = c.stdout ++ m.content }

-- The errors of `Exec`, which it returns with the exit code 1.
pub data ExecError : Type 0 where
  send_request connection_closed : ExecError
  read_response : MessageError → ExecError
  agent_error : Text → ExecError

unfoldable pub read_failed : MessageError → ExecError
read_failed (reading read_eof) = connection_closed
read_failed e = read_response e

-- After a response the loop of `Exec` goes on, or `Exec` returns.
pub data Next : Type 0 where
  again : Console → Next
  returns : Result ExecError ℤ → Next

unfoldable pub handle_response : Response → Console → Next
unfolding show
handle_response m c =
    if m.type =ᵗ codes "Output"
    then again (show m c)
    else if m.type =ᵗ codes "Exit"
    then returns (ok m.exit_code)
    else if m.type =ᵗ codes "Error"
    then returns (err (agent_error m.message))
    else again c

pub record Ended : Type 0 where
  pub result : Result ExecError ℤ
  pub console : Console

-- The loop of `Exec`; none where the fuel does not suffice.
unfoldable pub exec_loop : Json Response → ℕ → Reader → Console → Option Ended
unfolding handle_response read_failed
exec_loop json zero r c = none
exec_loop json (suc fuel) r c = elim (read_message json r) [
  | failed e ↦ some (record { result = err (read_failed e); console = c })
  | message m q ↦ elim (handle_response m c) [
    | again d ↦ exec_loop json fuel q d
    | returns x ↦ some (record { result = x; console = c })
  ]
]

-- `Exec`.
unfoldable pub exec {ℓ} :
    {W : Type ℓ}
    → Json Request
    → Json Response
    → Writer W
    → ℕ
    → W
    → Reader
    → Console
    → List Text
    → Text
    → Option Ended × W
unfolding exec_loop
exec request response io fuel w r c command workdir =
    let (sent, w1) = write_message request io w (exec_request command workdir) in
    if sent
    then (exec_loop response fuel r c, w1)
    else (some (record { result = err send_request; console = c }), w1)
