-- ===== src/Scripts/Bench.antt =====
-- scripts/nitro-bench: the `/bytes/` handler of `enclave-server`, and `writePayload`.
pub mod Payload
use argonaut.Bridge.Env.{ℤ, pos, negsuc, atoi}
use argonaut.Bridge.Write.{Writer}
use argonaut.Text.Decimal.{itoa}
use argonaut.Text.Index.{has_prefix}
use argonaut.Prelude.{
  ℕ, zero, suc, ◌+◌, ◌-◌, ◌%◌, [], ◌∷◌, Option, none, some, Bytes, codes, length, take, drop, ltb,
  ◌==◌, if◌then◌else◌,
}

abbrev pub max_payload_bytes : ℕ
max_payload_bytes = 1048576

abbrev pub chunk_size : ℕ
chunk_size = 32768

-- `byte('a' + i%26)` for `n` indices from `i` on
unfoldable pub letters : ℕ → ℕ → Bytes
letters i zero = []
letters i (suc n) = (b'a' + i % 26) ∷ letters (suc i) n

module _ {E W : Type 0} (io : Writer E W) where
  -- The loop of `writePayload`; none is only the fuel's end.
  unfoldable pub write_chunks : Bytes → ℕ → ℕ → W → Option W
  write_chunks chunk fuel zero w = some w
  write_chunks chunk zero (suc size) w = none
  write_chunks chunk (suc fuel) (suc size) w =
      let n = if ltb (length chunk) (suc size) then length chunk else suc size in
      let ((count, error), w') = io.write w (take n chunk) in
      let rest = write_chunks chunk fuel (suc size - n) w' in
      elim error [ some e ↦ some w' | none ↦ rest ]

  unfoldable pub write_payload : ℕ → W → Option W
  write_payload size w = write_chunks (letters 0 chunk_size) size size w

-- What the handler does: an error response, or a payload behind its headers.
pub data BytesResponse : Type 0 where
  bad_request : BytesResponse
  payload : (content_length : Bytes) (size : ℕ) → BytesResponse

-- `strings.TrimPrefix`
abbrev pub trim_prefix : Bytes → Bytes → Bytes
trim_prefix s p = if has_prefix s p then drop (length p) s else s

sized : Option ℤ → BytesResponse
sized none = bad_request
sized (some (negsuc n)) = bad_request
sized (some (pos n)) = if ltb max_payload_bytes n then bad_request else payload (itoa n) n

-- the handler, by the URL's path
unfoldable pub serve_bytes : Bytes → BytesResponse
unfolding sized
serve_bytes path = sized (atoi (trim_prefix path (codes "/bytes/")))
