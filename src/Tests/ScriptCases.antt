-- ===== src/Tests/ScriptCases.antt =====
-- scripts/: the smoke test against a service, and the benchmark's payload.
use argonaut.Bridge.Env.{atoi}
use argonaut.Bridge.Plan.{join_host_port}
use argonaut.Bridge.Write.{Writer}
use argonaut.Json.Decode.{decode_text, decode_uint, is_field, fold_name}
use argonaut.Json.Parse.{parse_json, parse_value, skip_space, lead}
use argonaut.Json.Strings.{scan_string, string_next, ends_string, unquote}
use argonaut.Nsm.Request.{NsmBackend}
use argonaut.Scripts.Bench.{bad_request, payload, serve_bytes}
use argonaut.Scripts.Smoke.{parse_smoke_endpoint, smoke_endpoint, outbound_addr, test_nsm}
use argonaut.Scripts.Smoke.Service.{ask, test_nsm-handle}
use argonaut.Text.Decimal.{itoa, parse_digits}
use argonaut.Text.Index.{has_prefix}
use argonaut.Text.Utf8.{rune_width}
use argonaut.Prelude.{
  equal, ℕ, zero, suc, ◌+◌, ◌≡◌, refl, [], ◌∷◌, ◌++◌, none, ok, Bytes, codes, length, arith,
}

abbrev ones : ℕ → Bytes
ones zero = []
ones (suc n) = 1 ∷ ones n

-- A backend of 32 bytes a document.
abbrev device : NsmBackend ℕ
device = record {
  get_attestation = λ req n. (ok (ones 32), n + 1);
  get_random = λ n. (ok (0xab ∷ []), n + 1);
}

test_nsm-handle_example : test_nsm (ask device) 0 ≡ (ok tt, 2)
test_nsm-handle_example =
    test_nsm-handle device 0 1 2 0xab 1 [] (ones 31) refl (omega arith) refl (omega arith)
      (omega arith)

-- A writer that takes all and never fails.
abbrev all_taken : Writer Bytes Bytes
all_taken = record { write = λ w buf. ((length buf, none), w ++ buf) }

parsed_defaults :
    parse_smoke_endpoint
      (codes "{\"version\":\"v0.1\",\"endpoints\":[{\"host\":\"a.b\",\"localPort\":null}]}")
    ≡ ok (record { host = codes "a.b"; local_ip = codes "127.0.0.64"; local_port = 443 })
unfolding parse_smoke_endpoint smoke_endpoint parse_json parse_value skip_space lead scan_string
    string_next ends_string unquote rune_width decode_text decode_uint is_field fold_name equal
parsed_defaults = refl

dialled :
    outbound_addr (record { host = codes "a.b"; local_ip = codes "127.0.0.64"; local_port = 443 })
    ≡ codes "127.0.0.64:443"
unfolding outbound_addr join_host_port itoa
dialled = refl

served :
    (serve_bytes (codes "/bytes/1048576") ≡ payload (codes "1048576") 1048576)
    × (serve_bytes (codes "/bytes/1048577") ≡ bad_request)
    × (serve_bytes (codes "/bytes/-1") ≡ bad_request)
    × (serve_bytes (codes "/bytes/") ≡ bad_request)
unfolding serve_bytes has_prefix itoa atoi parse_digits
served = (refl, refl, refl, refl)
