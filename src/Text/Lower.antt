-- ===== src/Text/Lower.antt =====
-- `strings.ToLower` on ASCII text, which is all that the program hands it: the host name has been
-- validated before.
use argonaut.Prelude.{ℕ, ◌+◌, map, within, if◌then◌else◌, Bytes}

abbrev pub lower_byte : ℕ → ℕ
lower_byte c = if within b'A' b'Z' c then c + 32 else c

abbrev pub to_lower : Bytes → Bytes
to_lower = map lower_byte
