-- ===== src/Bridge/Env.antt =====
-- main.go: the settings that are read from the environment.
--
-- `strconv.Atoi` is that of a 64-bit platform. Where the source logs an invalid value and returns
-- the fallback, the model only returns it.
pub mod Settings
use argonaut.Text.Decimal.{parse_digits}
use argonaut.Prelude.{
  ℕ, zero, suc, ◌+◌, ◌-◌, ◌*◌, ◌^◌, Bool, true, false, ◌&&◌, ◌||◌, List, [], ◌∷◌, Option, none,
  some, Bytes, codes, equal, ltb, leb, ◌==◌, within, if◌then◌else◌,
}

abbrev pub default_max_concurrent_connections : ℕ
default_max_concurrent_connections = 1024

pub data ℤ : Type 0 where
  pos : ℕ → ℤ
  negsuc : ℕ → ℤ

-- The range of an int: up to 2^63 - 1, and down to -2^63.
abbrev from_magnitude : Bool → Option ℕ → Option ℤ
from_magnitude negative none = none
from_magnitude true (some zero) = some (pos 0)
from_magnitude true (some (suc n)) = if ltb n (2 ^ 63) then some (negsuc n) else none
from_magnitude false (some n) = if ltb n (2 ^ 63) then some (pos n) else none

unfoldable pub atoi : Bytes → Option ℤ
atoi [] = none
atoi (c ∷ s) =
    if c == b'-'
    then from_magnitude true (parse_digits s)
    else if c == b'+'
    then from_magnitude false (parse_digits s)
    else from_magnitude false (parse_digits (c ∷ s))

-- `os.Getenv`, which is empty for a variable that is not set
abbrev pub Environment : Type 0
Environment = Bytes → Bytes

positive : Option ℤ → ℕ → ℕ
positive none fallback = fallback
positive (some (negsuc n)) fallback = fallback
positive (some (pos zero)) fallback = fallback
positive (some (pos (suc n))) fallback = suc n

unfoldable pub env_int : Environment → Bytes → ℕ → ℕ
unfolding positive
env_int getenv name fallback =
    if equal (getenv name) [] then fallback else positive (atoi (getenv name)) fallback

one_of : List Bytes → Bytes → Bool
one_of [] s = false
one_of (w ∷ ws) s = equal w s || one_of ws s

abbrev pub truths : List Bytes
truths = codes "1" ∷ codes "t" ∷ codes "T" ∷ codes "true" ∷ codes "TRUE" ∷ codes "True" ∷ []

abbrev pub falsities : List Bytes
falsities = codes "0" ∷ codes "f" ∷ codes "F" ∷ codes "false" ∷ codes "FALSE" ∷ codes "False" ∷ []

-- `strconv.ParseBool`
unfoldable pub parse_bool : Bytes → Option Bool
unfolding one_of
parse_bool s =
    if one_of truths s then some true else if one_of falsities s then some false else none

unfoldable pub env_bool : Environment → Bytes → Bool → Bool
env_bool getenv name fallback =
    if equal (getenv name) []
    then fallback
    else elim (parse_bool (getenv name)) [ none ↦ fallback | some parsed ↦ parsed ]

unfoldable pub env_string : Environment → Bytes → Bytes → Bytes
env_string getenv name fallback = if equal (getenv name) [] then fallback else getenv name

-- The initial value of the package's variable of that name.
unfoldable pub configured_max_concurrent_connections : Environment → ℕ
configured_max_concurrent_connections getenv =
    env_int getenv (codes "ARGONAUT_MAX_CONNECTIONS") default_max_concurrent_connections

unfoldable pub configured_host_http_bind_addr : Environment → Bytes
configured_host_http_bind_addr getenv =
    env_string getenv (codes "ARGONAUT_HTTP_BIND_ADDR") (codes "0.0.0.0")
