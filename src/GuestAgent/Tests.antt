-- ===== src/GuestAgent/Tests.antt =====
-- The guest channel with a toy JSON, which has no text that begins with a zero.
use codewire.Base.{
  ℕ, Option, none, some, [], ◌∷◌, ◌++◌, ◌≡◌, refl, arith, if◌then◌else◌, ◌≤◌, ◌<◌, length, ◌==◌,
}
use codewire.Base.Text.{Text, codes, ◌=ᵗ◌}
use codewire.Base.Int.{pos}
use codewire.Base.Json.{Json}
use codewire.Base.Result.{ok, err}
use codewire.Protocol.Bytes.{eof, failure}
use codewire.Protocol.Frame.{buffer}
use codewire.GuestAgent.{Request, Response, unmarshalling}
use codewire.GuestAgent.Client.{exec_request, Console, read_response, Ended, exec_loop, exec}
use codewire.GuestAgent.Agent.{
  Command, stdout, stderr, exit_error, Started, started, command_env, has_path, output_response,
  exit_response, handle_connection,
}
use codewire.GuestAgent.Packets.{Carries}
use codewire.GuestAgent.Exec.{exec-handle_connection}
use codewire.GuestAgent.Console.{concat}
use codewire.GuestAgent.Streams.{twice}
use codewire.GuestAgent.Loop.{exec_loop_ends}
use codewire.GuestAgent.Torn.{torn, exec_loop-torn}

abbrev marshal_request : Request → Option Text
marshal_request m = some (b'r' ∷ m.workdir)

abbrev unmarshal_request : Text → Option Request
unmarshal_request [] = none
unmarshal_request (c ∷ s) = some (exec_request (codes "ls" ∷ []) s)

abbrev request_json : Json Request
request_json = record { marshal = marshal_request; unmarshal = unmarshal_request }

abbrev marshal_response : Response → Option Text
marshal_response m = some (
    if m.type =ᵗ codes "Output"
    then (if m.stream =ᵗ codes "stderr" then b'e' ∷ m.content else b'o' ∷ m.content)
    else b'x' ∷ [])

abbrev unmarshal_response : Text → Option Response
unmarshal_response [] = none
unmarshal_response (c ∷ s) =
    if c == b'e'
    then some (output_response stderr s)
    else if c == b'o'
    then some (output_response stdout s)
    else if c == b'x'
    then some (exit_response (exit_error (pos 2)))
    else none

abbrev response_json : Json Response
response_json = record { marshal = marshal_response; unmarshal = unmarshal_response }

abbrev start : Command → Started
start c =
    started (codes "a" ∷ codes "a" ∷ []) (codes "b" ∷ []) (twice (stdout ∷ stderr ∷ []))
      (exit_error (pos 2))

abbrev empty : Console
empty = record { stdout = []; stderr = [] }

request_carried : Carries request_json (exec_request (codes "ls" ∷ []) (codes "/tmp"))
request_carried = record {
  text = codes "r/tmp";
  marshals = refl;
  unmarshals = refl;
  small = omega arith;
}

out_carried : Carries response_json (output_response stdout (codes "a"))
unfolding ◌=ᵗ◌
out_carried = record { text = codes "oa"; marshals = refl; unmarshals = refl; small = omega arith }

bad_carried : Carries response_json (output_response stderr (codes "b"))
unfolding ◌=ᵗ◌
bad_carried = record { text = codes "eb"; marshals = refl; unmarshals = refl; small = omega arith }

exit_carried : Carries response_json (exit_response (exit_error (pos 2)))
unfolding ◌=ᵗ◌
exit_carried = record { text = codes "x"; marshals = refl; unmarshals = refl; small = omega arith }

exec-handle_connection_example :
    (answer : Text) × (handle_connection response_json buffer request_json [] start 2
        (record {
          bytes =
              (exec request_json response_json buffer 0 []
                (record { bytes = []; end = eof })
                empty
                (codes "ls" ∷ [])
                (codes "/tmp")).1;
          end = eof;
        })
        []
      ≡ some answer)
    × ((fuel : ℕ)
        → length answer < fuel
        → (exec request_json response_json buffer fuel []
            (record { bytes = answer ++ []; end = failure })
            empty
            (codes "ls" ∷ [])
            (codes "/tmp")).0
          ≡ some (record {
            result = ok (pos 2);
            console = record {
              stdout = [] ++ concat (codes "a" ∷ codes "a" ∷ []);
              stderr = [] ++ concat (codes "b" ∷ []);
            };
          }))
exec-handle_connection_example =
    exec-handle_connection request_json response_json [] start (codes "ls") (codes "/tmp") []
      (codes "a" ∷ codes "a" ∷ []) (codes "b" ∷ []) (stdout ∷ stderr ∷ []) (exit_error (pos 2)) 2
      empty [] failure refl request_carried
      ((omega arith, out_carried), ((omega arith, out_carried), tt))
      ((omega arith, bad_carried), tt) exit_carried (omega arith)

exec_loop_ends_example :
    (x : Ended) × ((more : ℕ)
      → 6 ≤ more
      → exec_loop response_json more (record { bytes = 0 ∷ 0 ∷ 0 ∷ 1 ∷ codes "o"; end = eof }) empty
        ≡ some x)
exec_loop_ends_example =
    exec_loop_ends response_json 6 (record { bytes = 0 ∷ 0 ∷ 0 ∷ 1 ∷ codes "o"; end = eof }) empty
      (omega arith)

exec_loop-torn_example :
    exec_loop response_json 1
      (record { bytes = torn (codes "oa") (codes "eb") ++ []; end = failure })
      empty
    ≡ some (record { result = err (read_response unmarshalling); console = empty })
exec_loop-torn_example =
    exec_loop-torn response_json (codes "oa") (codes "eb") [] failure 1 empty (λ u. refl)
      (omega arith) (omega arith) (omega arith) (omega arith)

path_test :
    command_env (codes "HOME=/" ∷ codes "PATH=" ∷ [])
    ≡ codes "HOME=/"
      ∷ codes "PATH="
      ∷ codes "PATH=/usr/local/sbin:/usr/local/bin:/usr/sbin:/usr/bin:/sbin:/bin"
      ∷ []
unfolding command_env has_path ◌=ᵗ◌
path_test = refl
