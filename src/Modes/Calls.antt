-- ===== src/Modes/Calls.antt =====
-- main.go: what the modes call, and how a process ends.
use argonaut.Bridge.Plan.{Bridge}
use argonaut.Bridge.Write.{Writer, WriteError}
use argonaut.Config.Decode.{ParseConfigError, ReadAllError}
use argonaut.Config.Schema.{Config, ValidationMode}
use argonaut.Config.Validate.{ConfigError, config_nil, validate_config}
use argonaut.Hosts.File.{FileOps, HostsError}
use argonaut.Json.Decode.{parse_uint}
use argonaut.Loopback.{NetOps, LoopbackError}
use argonaut.Nsm.Lines.{InputEnd}
use argonaut.Prelude.{
  ℕ, ◌≡◌, refl, sym, ap, List, [], ◌∷◌, Option, none, some, Result, ok, err, Bytes,
}

-- The argument of `log.Fatalf`, by the step that failed; the text of a call's error stands behind
-- it.
pub data Fatal : Type 0 where
  invalid_cid invalid_port : Bytes → Fatal
  config_unreadable : Bytes → Fatal
  config_unparsed : ParseConfigError → Fatal
  config_invalid : ConfigError → Fatal
  dial_failed listen_failed accept_failed stdout_failed : Bytes → Fatal
  config_unwritten : WriteError Bytes → Fatal
  input_unread : ReadAllError → Fatal
  loopback_down : LoopbackError → Fatal
  hosts_unwritten : HostsError → Fatal

-- How a mode ends: `usage` and `fatal` with status 1, `finished` with 0. `serving` is `wg.Wait()`
-- with all of the bridges started, each of which only ends the whole process; `nsm_serving` is the
-- line protocol's loop. `panicked` and `out_of_fuel` are those of `writeAll`.
pub data Exit : Type 0 where
  usage finished serving nsm_serving panicked out_of_fuel : Exit
  fatal : Fatal → Exit

-- The calls, with the text of the error where there is one; a connection or a listener is a number.
-- `read_stdin` and `receive` are what is left to be read there, and how it ends.
pub record Calls (S : Type 0) : Type 0 where
  pub files : FileOps S
  pub net : NetOps S
  pub read_config : Bytes → S → Result Bytes Bytes × S
  pub read_stdin : S → (Bytes × InputEnd) × S
  pub dial : (cid port : ℕ) → S → Result Bytes ℕ × S
  pub write : (conn : ℕ) → Bytes → S → (ℕ × Option Bytes) × S
  pub close : (conn : ℕ) → S → S
  pub listen : (port : ℕ) → S → Result Bytes ℕ × S
  pub accept : (listener : ℕ) → S → Result Bytes ℕ × S
  pub close_listener : (listener : ℕ) → S → S
  pub receive : (conn : ℕ) → S → (Bytes × InputEnd) × S
  pub write_stdout : Bytes → S → Option Bytes × S
  pub start : Bridge → S → S

-- `if err != nil { log.Fatalf(...) }`
abbrev pub or_fatal {ℓ κ} :
    {S : Type 0} {E : Type ℓ} {A : Type κ}
    → Result E A × S
    → (E → Fatal)
    → (A → S → Exit × S)
    → Exit × S
or_fatal (err e, s) why next = (fatal (why e), s)
or_fatal (ok a, s) why next = next a s

-- `strconv.ParseUint(arg, 10, 32)`
abbrev pub uint32_arg : Bytes → Result Bytes ℕ
uint32_arg arg = elim (parse_uint 32 arg) [ none ↦ err arg | some n ↦ ok n ]

-- The configuration that `ValidateConfig` leaves behind its pointer, if it accepts it.
accepted : Option Config × Result ConfigError (Unit {0}) → Result ConfigError Config
accepted (o, err e) = err e
accepted (some cfg, ok u) = ok cfg
accepted (none, ok u) = err config_nil

unfoldable pub validated : Config → ValidationMode → Result ConfigError Config
unfolding accepted
validated cfg mode = accepted (validate_config (some cfg) mode)

abbrev pub conn_writer : {S : Type 0} → Calls S → ℕ → Writer Bytes S
conn_writer calls conn = record { write = λ s buf. calls.write conn buf s }

-- the goroutines, in the order in which they are started
abbrev pub start_all : {S : Type 0} → Calls S → List Bridge → S → S
start_all calls [] s = s
start_all calls (b ∷ bs) s = start_all calls bs (calls.start b s)

-- An end that is not an error's.
abbrev pub IsGood : Exit → Type 0
IsGood serving = Unit
IsGood finished = Unit
IsGood nsm_serving = Unit
IsGood _ = ⊥

-- A step with a check ends well only where the check passes.
pub or_fatal-IsGood {ℓ κ} :
    {S : Type 0} {E : Type ℓ} {A : Type κ} (r : Result E A × S) (why : E → Fatal)
    (next : A → S → Exit × S) {x : Exit} {s : S}
    → or_fatal r why next ≡ (x, s)
    → IsGood x
    → (a : A) × (r.0 ≡ ok a) × (next a r.1 ≡ (x, s))
or_fatal-IsGood (ok a, s1) why next h g = (a, refl, h)
or_fatal-IsGood (err e, s1) why next {x} h g =
    let bad : fatal (why e) ≡ x = ap (λ p. p.0) h in absurd (let g' = rw (sym bad) at g in g')

pub not_good :
    {S : Type 0} (bad : Exit) {x : Exit} {s s' : S}
    → (IsGood bad → ⊥)
    → ◌≡◌ {A = Exit × S} (bad, s) (x, s')
    → IsGood x
    → ⊥
not_good bad b h g = let same : bad ≡ _ = ap (λ p. p.0) h in b (rw same g)

accepted-ok :
    (o : Option Config × Result ConfigError (Unit {0})) {cfg : Config}
    → accepted o ≡ ok cfg
    → o ≡ (some cfg, ok tt)
unfolding accepted
accepted-ok (o, err e) h = absurd cc
accepted-ok (some c, ok u) {cfg} h = let same : c ≡ cfg = cc in ap (λ c. (some c, ok tt)) same
accepted-ok (none, ok u) h = absurd cc

pub validated-ok :
    (cfg cfg' : Config) (mode : ValidationMode)
    → validated cfg mode ≡ ok cfg'
    → validate_config (some cfg) mode ≡ (some cfg', ok tt)
unfolding validated
validated-ok cfg cfg' mode h = accepted-ok (validate_config (some cfg) mode) h
