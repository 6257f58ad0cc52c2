-- ===== src/Nsm/JsonLine/OneLine.antt =====
-- nsm.go: the responses of the JSON Lines protocol as text.

use argonaut.Json.Parse.RoundTrip.{IsPrintable, MembersPrintable, parse_json-print}
use argonaut.Json.Parse.{parse_json, max_depth}
use argonaut.Json.Print.{comma, quoted_text, print, print_members}
use argonaut.Json.Strings.Plain.{IsPlain, plain_bytes, plain_byte, plain_bytes-Plain, quote_plain}
use argonaut.Json.Value.{Json, Members, bool, text, no_members, member}
use argonaut.Nsm.Hex.{encode, encode-IsHexDigit, IsHexDigit}
use argonaut.Nsm.JsonLine.{
  NsmJsonResponse, response_json, omit_empty, marshal_nsm_json_response, read_request,
  handle_nsm_json_line,
}
use argonaut.Nsm.Legacy.Framing.{ReturnsBytes}
use argonaut.Nsm.Request.{NsmBackend}
use argonaut.Nsm.Token.{IsTokenByte}
use argonaut.Prelude.{
  ℕ, ◌≤◌, ◌<◌, ◌≡◌, inl, inr, refl, Bool, true, false, [], ◌∷◌, ok, Bytes, codes, All, All-append,
  arith,
}
use argonaut.Nsm.JsonLine.Framing.{IsId, IsJsonResponse, failed, done, respond-IsJsonResponse}

-- ASCII, and not one of its first 32 control characters: in particular neither a newline nor a
-- carriage return.
abbrev pub IsVisible : ℕ → Type 0
IsVisible c = (0x20 ≤ c) × (c < 0x80)

pub plain-Visible : (s : Bytes) → All IsPlain s → All IsVisible s
plain-Visible [] h = tt
plain-Visible (c ∷ s) (p, h) = ((p.0, p.1), plain-Visible s h)

pub token-Plain : (s : Bytes) → All IsTokenByte s → All IsPlain s
token-Plain [] h = tt
token-Plain (c ∷ s) (p, h) = (byte c p, token-Plain s h)
  where
    byte : (c : ℕ) → IsTokenByte c → IsPlain c
    byte c h = (
      ground arith,
      ground arith,
      λ e. ground arith,
      λ e. ground arith,
      λ e. ground arith,
      λ e. ground arith,
      λ e. ground arith,
    )

pub hex-Plain : (s : Bytes) → All IsHexDigit s → All IsPlain s
hex-Plain [] h = tt
hex-Plain (c ∷ s) (p, h) = (byte c p, hex-Plain s h)
  where
    byte : (c : ℕ) → IsHexDigit c → IsPlain c
    byte c h = (
      ground arith,
      ground arith,
      λ e. ground arith,
      λ e. ground arith,
      λ e. ground arith,
      λ e. ground arith,
      λ e. ground arith,
    )

id-Plain : (id : Bytes) → IsId id → All IsPlain id
id-Plain id (inl e) = rw e tt
id-Plain id (inr (t, short)) = token-Plain id t.bytes

quoted_text-Visible : (s : Bytes) → All IsPlain s → All IsVisible (quoted_text s)
quoted_text-Visible s h =
    rw (quote_plain s h)
      (omega arith, All-append IsVisible s (b'"' ∷ []) (plain-Visible s h) (omega arith, tt))

members-Visible :
    (k : Bytes) (v : Json) (ms : Members) (first : Bool)
    → All IsPlain k
    → All IsVisible (print v)
    → All IsVisible (print_members ms false)
    → All IsVisible (print_members (member k v ms) first)
unfolding print_members
members-Visible k v ms first hk hv h = All-append IsVisible (comma first) _ (separators first) (
    All-append IsVisible (quoted_text k) _ (quoted_text-Visible k hk)
      (omega arith, All-append IsVisible (print v) _ hv h))
  where
    separators : (first : Bool) → All IsVisible (comma first)
    separators true = tt
    separators false = (omega arith, tt)

-- the fields of a response are plain
record IsPlainResponse (resp : NsmJsonResponse) : Type 0 where
  id : All IsPlain resp.id
  data_ : All IsPlain resp.data_
  error : All IsPlain resp.error

plain_response : (resp : NsmJsonResponse) → IsJsonResponse resp → IsPlainResponse resp
plain_response resp (failed id code i t e) =
    rw e (record { id = id-Plain id i; data_ = tt; error = token-Plain code t.bytes })
plain_response resp (done id bytes i b e) = rw e (record {
  id = id-Plain id i;
  data_ = hex-Plain (encode bytes) (encode-IsHexDigit bytes b);
  error = tt;
})

omit_empty-Printable :
    (d : ℕ) (k s : Bytes) (ms : Members)
    → All IsPlain k
    → All IsPlain s
    → MembersPrintable d ms
    → MembersPrintable d (omit_empty k s ms)
omit_empty-Printable d k [] ms hk hs h = h
omit_empty-Printable d k (c ∷ s) ms hk hs h = (hk, hs, h)

omit_empty-Visible :
    (k s : Bytes) (ms : Members)
    → All IsPlain k
    → All IsPlain s
    → All IsVisible (print_members ms false)
    → All IsVisible (print_members (omit_empty k s ms) false)
unfolding print
omit_empty-Visible k [] ms hk hs h = h
omit_empty-Visible k (c ∷ s) ms hk hs h =
    members-Visible k (text (c ∷ s)) ms false hk (quoted_text-Visible (c ∷ s) hs) h

response-Printable :
    (resp : NsmJsonResponse) → IsPlainResponse resp → IsPrintable max_depth (response_json resp)
unfolding plain_bytes plain_byte
response-Printable resp p = (
  plain_bytes-Plain (codes "id") refl,
  p.id,
  (
    plain_bytes-Plain (codes "ok") refl,
    tt,
    omit_empty-Printable 9999 (codes "data") resp.data_ _ (plain_bytes-Plain (codes "data") refl)
        p.data_
        (omit_empty-Printable 9999 (codes "error") resp.error no_members
          (plain_bytes-Plain (codes "error") refl) p.error tt),
  ),
)

bool-Visible : (b : Bool) → All IsVisible (print (bool b))
unfolding print
bool-Visible true = omega arith
bool-Visible false = omega arith

response-Visible :
    (resp : NsmJsonResponse) → IsPlainResponse resp → All IsVisible (print (response_json resp))
unfolding print print_members plain_bytes plain_byte
response-Visible resp p =
    let error_ms = omit_empty (codes "error") resp.error no_members in
    let data_ms = omit_empty (codes "data") resp.data_ error_ms in
    let ok_ms = member (codes "ok") (bool resp.ok) data_ms in
    let error =
      omit_empty-Visible (codes "error") resp.error no_members
        (plain_bytes-Plain (codes "error") refl) p.error (omega arith, tt) in
    let data_ =
      omit_empty-Visible (codes "data") resp.data_ error_ms (plain_bytes-Plain (codes "data") refl)
        p.data_ error in
    let okay =
      members-Visible (codes "ok") (bool resp.ok) data_ms false
        (plain_bytes-Plain (codes "ok") refl) (bool-Visible resp.ok) data_ in
    (
      omega arith,
      members-Visible (codes "id") (text resp.id) ok_ms true (plain_bytes-Plain (codes "id") refl)
          (quoted_text-Visible resp.id p.id) okay,
    )

pub parse_json-marshal :
    (resp : NsmJsonResponse)
    → IsJsonResponse resp
    → parse_json (marshal_nsm_json_response resp) ≡ ok (response_json resp)
unfolding marshal_nsm_json_response
parse_json-marshal resp h =
    parse_json-print (response_json resp) (response-Printable resp (plain_response resp h))

pub marshal-Visible :
    (resp : NsmJsonResponse) → IsJsonResponse resp → All IsVisible (marshal_nsm_json_response resp)
unfolding marshal_nsm_json_response
marshal-Visible resp h = response-Visible resp (plain_response resp h)

-- A line of a response: it has the response's form, it parses back to it, and it has no control
-- characters.
pub record IsOneLine (out : Bytes) : Type 0 where
  pub resp : NsmJsonResponse
  pub form : IsJsonResponse resp
  pub marshalled : out ≡ marshal_nsm_json_response resp
  pub parses : parse_json out ≡ ok (response_json resp)
  pub visible : All IsVisible out

pub marshal-IsOneLine :
    (resp : NsmJsonResponse) → IsJsonResponse resp → IsOneLine (marshal_nsm_json_response resp)
marshal-IsOneLine resp h = record {
  resp = resp;
  form = h;
  marshalled = refl;
  parses = parse_json-marshal resp h;
  visible = marshal-Visible resp h;
}

-- Whatever the line is, and whatever bytes the backend returns, the response is a JSON object on one
-- line that parses back to an id of no or at most 64 token bytes, with either `ok` false and an
-- error code of token bytes, or `ok` true and the hexadecimal print of bytes.
pub handle_nsm_json_line-IsOneLine :
    {S : Type 0} (backend : NsmBackend S) (line : Bytes) (s : S)
    → ReturnsBytes backend
    → IsOneLine (handle_nsm_json_line backend line s).0
unfolding handle_nsm_json_line
handle_nsm_json_line-IsOneLine backend line s typed =
    marshal-IsOneLine _ (respond-IsJsonResponse backend typed (read_request line) s)
