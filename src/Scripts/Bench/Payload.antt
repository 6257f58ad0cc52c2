-- ===== src/Scripts/Bench/Payload.antt =====
-- scripts/nitro-bench: what `writePayload` writes.
use argonaut.Bridge.Write.Total.{IsWriter}
use argonaut.Bridge.Write.{Writer}
use argonaut.Scripts.Bench.{write_chunks}
use argonaut.Prelude.{
  ℕ, zero, suc, ◌+◌, ◌-◌, ◌%◌, ◌≤◌, ◌≡◌, [], ◌∷◌, ◌++◌, Option, none, some, Bytes, length, take,
}

-- The payload's bytes at `n` places from `i` on.
unfoldable pub payload_bytes : ℕ → ℕ → Bytes
payload_bytes i zero = []
payload_bytes i (suc n) = (b'a' + (i % 32768) % 26) ∷ payload_bytes (suc i) n

-- `io.Writer`: an error is returned where fewer bytes were written.
pub record IsFullWriter {E W : Type 0} (io : Writer E W) (taken : W → Bytes) : Type 0 where
  pub writer : IsWriter io taken
  pub full : (w : W) (buf : Bytes) → (io.write w buf).0.1 ≡ none → (io.write w buf).0.0 ≡ length buf

-- A prefix of the payload was written, all of it where no write fails.
pub record IsPayload {E W : Type 0} (io : Writer E W) (taken : W → Bytes) (size : ℕ) (w out : W)
    : Type 0 where
  pub count : ℕ
  pub bound : count ≤ size
  pub written : taken out ≡ taken w ++ payload_bytes 0 count
  pub complete : ((w : W) (buf : Bytes) → (io.write w buf).0.1 ≡ none) → count ≡ size

module _ {E W : Type 0} (io : Writer E W) (taken : W → Bytes) (k : IsFullWriter io taken)
    (chunk : Bytes) (is_chunk : chunk ≡ payload_bytes 0 32768) where
  -- a turn of the loop that writes `n` bytes
  attempt : ℕ → ℕ → W → ℕ → Option W
  attempt fuel size w n =
      let w' = (io.write w (take n chunk)).1 in
      elim (io.write w (take n chunk)).0.1 [
        | some e ↦ some w'
        | none ↦ write_chunks io chunk fuel (size - n) w'
      ]
