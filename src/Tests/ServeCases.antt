-- ===== src/Tests/ServeCases.antt =====
-- nsm.go: the JSON Lines protocol and the loop, on a backend that counts its calls.
use argonaut.Json.Print.{print}
use argonaut.Nsm.JsonLine.OneLine.{IsOneLine, handle_nsm_json_line-IsOneLine}
use argonaut.Nsm.JsonLine.Parse.{att_json, rnd_json, marshalled, protocols-Agree}
use argonaut.Nsm.JsonLine.{handle_nsm_json_line}
use argonaut.Nsm.Legacy.Parse.{att_request, rnd_request}
use argonaut.Nsm.Legacy.{reply, handle_nsm_legacy_line}
use argonaut.Nsm.Lines.{Reader, eof}
use argonaut.Nsm.Serve.Answers.{IsServed, serve_nsm-IsServed}
use argonaut.Nsm.Serve.{serve_nsm}
use argonaut.Tests.NsmCases.{mock, mock-ReturnsBytes, seven}
use argonaut.Prelude.{◌≡◌, [], ◌∷◌, none, some, codes, arith}

handle_nsm_json_line-IsOneLine_example :
    IsOneLine (handle_nsm_json_line mock (codes "{\"id\":\"a\",\"method\":\"RND\"}") 0).0
handle_nsm_json_line-IsOneLine_example =
    handle_nsm_json_line-IsOneLine mock (codes "{\"id\":\"a\",\"method\":\"RND\"}") 0
      mock-ReturnsBytes

protocols-Agree_example :
    let call =
      mock.get_attestation
        (record { public_key = some (170 ∷ []); nonce = none; user_data = some (1 ∷ []) })
        0 in
    let random = mock.get_random 0 in
    (handle_nsm_json_line mock (print (att_json (codes "7") (170 ∷ []) none (some (1 ∷ [])))) 0
      ≡ marshalled (codes "7") call)
    × (handle_nsm_legacy_line mock (att_request (codes "7") (170 ∷ []) none (some (1 ∷ []))) 0
        ≡ (reply (codes "7") call.0, call.1))
    × (handle_nsm_json_line mock (print (rnd_json (codes "7"))) 0 ≡ marshalled (codes "7") random)
    × (handle_nsm_legacy_line mock (rnd_request (codes "7")) 0
        ≡ (reply (codes "7") random.0, random.1))
protocols-Agree_example =
    protocols-Agree mock (codes "7") seven (omega arith) (170 ∷ []) none (some (1 ∷ [])) 0
      (record { nonempty = cc; bytes = omega arith }) tt
      (record { nonempty = cc; bytes = omega arith })

-- an empty line, a request, and one that the end of the input cuts short
abbrev input : Reader
input = record { unread = codes "\n7 RND\n{\"id\":\"b\",\"method\":\"RND\"}"; input_end = eof }

serve_nsm-IsServed_example : IsServed input (serve_nsm mock 50 input 0)
serve_nsm-IsServed_example = serve_nsm-IsServed mock mock-ReturnsBytes 50 input 0 (omega arith)
