-- ===== src/Scripts/Smoke.antt =====
-- scripts/nitro-smoke: `enclave-runner`, which tests argonaut from inside the enclave, and
-- `host-echo`, which answers it.
pub mod Service
use argonaut.Bridge.Plan.{join_host_port}
use argonaut.Json.Decode.{DecodeError, wrong_value, decode_text, decode_uint, is_field}
use argonaut.Json.Parse.{parse_json}
use argonaut.Json.Value.{Json, null, bool, text, array, object, items, members}
use argonaut.Text.Index.{index}
use argonaut.Text.Trim.{trim_space}
use argonaut.Prelude.{
  ℕ, zero, suc, Bool, true, false, not, ◌&&◌, ◌||◌, List, [], ◌∷◌, ◌++◌, Option, none, some, Result,
  ok, err, ◌>>=◌, ◌>>◌, require, map_err, Bytes, codes, equal, length, drop, ltb, ◌==◌,
  if◌then◌else◌,
}

pub record NsmReply : Type 0 where
  pub id : Bytes
  pub ok : Bool
  pub data_ : Bytes
  pub error : Bytes

pub record SmokeEndpoint : Type 0 where
  pub host : Bytes
  pub local_ip : Bytes
  pub local_port : ℕ  -- uint16

-- The errors; what a call says stands behind them.
pub data SmokeError : Type 0 where
  config_undecoded host_empty bad_random bad_attestation hosts_timeout dial_timeout : SmokeError
  endpoint_count : ℕ → SmokeError
  nsm_unread nsm_undecoded nsm_failed exited outbound_failed unexpected_answer : Bytes → SmokeError

decode_bool : Bool → Json → Result DecodeError Bool
decode_bool old null = ok old
decode_bool old (bool b) = ok b
decode_bool old _ = err wrong_value

-- a member of the response; other members are ignored
store_reply : Bytes → Json → NsmReply → Result DecodeError NsmReply
unfolding decode_bool
store_reply key v r =
    if is_field (codes "id") key
    then (decode_text r.id v >>= λ s. ok (record r { id = s }))
    else if is_field (codes "ok") key
    then (decode_bool r.ok v >>= λ b. ok (record r { ok = b }))
    else if is_field (codes "data") key
    then (decode_text r.data_ v >>= λ s. ok (record r { data_ = s }))
    else if is_field (codes "error") key
    then (decode_text r.error v >>= λ s. ok (record r { error = s }))
    else ok r

store_replies : NsmReply → List (Bytes × Json) → Result DecodeError NsmReply
unfolding store_reply
store_replies r [] = ok r
store_replies r ((k, v) ∷ ms) = do r' ← store_reply k v r; store_replies r' ms

abbrev zero_reply : NsmReply
zero_reply = record { id = []; ok = false; data_ = []; error = [] }

decode_reply : Json → Result DecodeError NsmReply
unfolding store_replies
decode_reply null = ok zero_reply
decode_reply (object ms) = store_replies zero_reply (members ms)
decode_reply _ = err wrong_value

-- `json.Unmarshal([]byte(res.line), &resp)`
unmarshal_reply : Bytes → Result SmokeError NsmReply
unfolding decode_reply
unmarshal_reply line = do
  v ← map_err (λ e. nsm_undecoded line) (parse_json line)
  map_err (λ e. nsm_undecoded line) (decode_reply v)

-- what `nsmRequest` makes of the line that is read, or of the error or the timeout
nsm_reply : Result Bytes Bytes → Result SmokeError NsmReply
unfolding unmarshal_reply
nsm_reply (err e) = err (nsm_unread e)
nsm_reply (ok line) = do
  resp ← unmarshal_reply (trim_space line)
  require resp.ok (nsm_failed resp.error)
  ok resp

abbrev pub random_request : Bytes
random_request = codes "{\"id\":\"rnd\",\"method\":\"RND\"}"

-- `strings.Repeat("11", n)`
abbrev pub repeat_11 : ℕ → Bytes
repeat_11 zero = []
repeat_11 (suc n) = codes "11" ++ repeat_11 n

abbrev pub attestation_request : Bytes
attestation_request =
    codes "{\"id\":\"att\",\"method\":\"ATT\",\"publicKey\":\""
    ++ (repeat_11 32 ++ codes "\",\"nonce\":\"aabbccdd\",\"userData\":\"01020304\"}")

check_random : NsmReply → Result SmokeError (Unit {0})
check_random random =
    require (not (not (equal random.id (codes "rnd")) || not random.ok || equal random.data_ []))
      bad_random

check_attestation : NsmReply → Result SmokeError (Unit {0})
check_attestation att =
    require (not (not (equal att.id (codes "att")) || not att.ok || ltb (length att.data_) 64))
      bad_attestation

module _ {S : Type 0} (ask : Bytes → S → Result Bytes Bytes × S) where
  -- `testNSM` behind the start of the process: `ask` writes a line and reads one.
  test_attestation : S → Result SmokeError (Unit {0}) × S
  unfolding nsm_reply check_attestation
  test_attestation s =
      let (line, s') = ask attestation_request s in (nsm_reply line >>= check_attestation, s')

  behind_random : Result SmokeError (Unit {0}) → S → Result SmokeError (Unit {0}) × S
  unfolding test_attestation
  behind_random (err e) s = (err e, s)
  behind_random (ok u) s = test_attestation s

  unfoldable pub test_nsm : S → Result SmokeError (Unit {0}) × S
  unfolding behind_random nsm_reply check_random
  test_nsm s =
      let (line, s') = ask random_request s in behind_random (nsm_reply line >>= check_random) s'

-- a member of an endpoint, and of the configuration; others are ignored
store_smoke : Bytes → Json → SmokeEndpoint → Result DecodeError SmokeEndpoint
store_smoke key v e =
    if is_field (codes "host") key
    then (decode_text e.host v >>= λ s. ok (record e { host = s }))
    else if is_field (codes "localIP") key
    then (decode_text e.local_ip v >>= λ s. ok (record e { local_ip = s }))
    else if is_field (codes "localPort") key
    then (decode_uint 16 e.local_port v >>= λ n. ok (record e { local_port = n }))
    else ok e

store_smokes : SmokeEndpoint → List (Bytes × Json) → Result DecodeError SmokeEndpoint
unfolding store_smoke
store_smokes e [] = ok e
store_smokes e ((k, v) ∷ ms) = do e' ← store_smoke k v e; store_smokes e' ms

decode_smoke : SmokeEndpoint → Json → Result DecodeError SmokeEndpoint
unfolding store_smokes
decode_smoke e null = ok e
decode_smoke e (object ms) = store_smokes e (members ms)
decode_smoke e _ = err wrong_value

abbrev zero_smoke : SmokeEndpoint
zero_smoke = record { host = []; local_ip = []; local_port = 0 }

-- onto the slice's backing array, zero behind its end
decode_smokes : List SmokeEndpoint → List Json → Result DecodeError (List SmokeEndpoint)
unfolding decode_smoke
decode_smokes backing [] = ok []
decode_smokes [] (v ∷ vs) = do e ← decode_smoke zero_smoke v; es ← decode_smokes [] vs; ok (e ∷ es)
decode_smokes (b ∷ backing) (v ∷ vs) = do
  e ← decode_smoke b v
  es ← decode_smokes backing vs
  ok (e ∷ es)

-- The endpoints, nil or not, and what stands behind them in the backing array.
abbrev Slice : Type 0
Slice = List SmokeEndpoint × List SmokeEndpoint

store_slice : Slice → Json → Result DecodeError Slice
unfolding decode_smokes
store_slice s null = ok ([], [])
store_slice (eps, spare) (array vs) = do
  es ← decode_smokes (eps ++ spare) (items vs)
  ok (es, if length es == 0 then [] else drop (length es) (eps ++ spare))
store_slice s _ = err wrong_value

store_config : Slice → List (Bytes × Json) → Result DecodeError Slice
unfolding store_slice
store_config s [] = ok s
store_config s ((k, v) ∷ ms) = do
  s' ← (if is_field (codes "endpoints") k then store_slice s v else ok s)
  store_config s' ms

decode_smoke_config : Json → Result DecodeError (List SmokeEndpoint)
unfolding store_config
decode_smoke_config null = ok []
decode_smoke_config (object ms) = store_config ([], []) (members ms) >>= λ s. ok s.0
decode_smoke_config _ = err wrong_value

-- The checks of `parseSmokeEndpoint` on the decoded endpoints, and its defaults.
unfoldable pub smoke_endpoint : List SmokeEndpoint → Result SmokeError SmokeEndpoint
smoke_endpoint (ep ∷ []) = do
  require (not (equal ep.host [])) host_empty
  ok (record ep {
    local_ip = if equal ep.local_ip [] then codes "127.0.0.64" else ep.local_ip;
    local_port = if ep.local_port == 0 then 443 else ep.local_port;
  })
smoke_endpoint eps = err (endpoint_count (length eps))

unfoldable pub parse_smoke_endpoint : Bytes → Result SmokeError SmokeEndpoint
unfolding decode_smoke_config
parse_smoke_endpoint config = do
  v ← map_err (λ e. config_undecoded) (parse_json config)
  eps ← map_err (λ e. config_undecoded) (decode_smoke_config v)
  smoke_endpoint eps

unfoldable pub outbound_addr : SmokeEndpoint → Bytes
outbound_addr ep = join_host_port ep.local_ip ep.local_port

-- What one turn of the loop of `verifyHostsBlock` sees first: the process ended, the deadline
-- passed, or what reading /etc/hosts gave.
pub data Seen : Type 0 where
  process_exited : Bytes → Seen
  deadline : Seen
  hosts_text : Result Bytes Bytes → Seen

contains : Bytes → Bytes → Bool
contains s t = elim (index s t) [ none ↦ false | some i ↦ true ]

has_block : Bytes → Result Bytes Bytes → Bool
unfolding contains
has_block expected (err e) = false
has_block expected (ok content) =
    contains content (codes "# argonaut begin") && contains content expected

-- `verifyHostsBlock` over what its turns see; none is a sequence that ends before the loop does.
unfoldable pub verify_hosts_block :
    SmokeEndpoint → List Seen → Option (Result SmokeError (Unit {0}))
unfolding has_block
verify_hosts_block ep [] = none
verify_hosts_block ep (process_exited e ∷ seen) = some (err (exited e))
verify_hosts_block ep (deadline ∷ seen) = some (err hosts_timeout)
verify_hosts_block ep (hosts_text r ∷ seen) =
    let again = verify_hosts_block ep seen in
    if has_block (ep.local_ip ++ codes "   " ++ ep.host) r then some (ok tt) else again

-- The `handle` of host-echo, by the line that was read: what is written, if anything.
unfoldable pub echo : Result Bytes Bytes → Option Bytes
echo (err e) = none
echo (ok line) =
    if equal line (codes "outbound-ping\n") then some (codes "outbound-pong\n") else none

-- What `testOutbound` makes of the line that it reads.
unfoldable pub outbound_answer : Result Bytes Bytes → Result SmokeError (Unit {0})
outbound_answer (err e) = err (outbound_failed e)
outbound_answer (ok line) = require (equal line (codes "outbound-pong\n")) (unexpected_answer line)
