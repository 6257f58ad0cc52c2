-- ===== src/Modes/Host/Ends.antt =====
-- main.go: how `hostMode` ends.
use argonaut.Bridge.Plan.{host_bridges}
use argonaut.Bridge.Write.Total.{IsWritten, IsWilling, write_all-Willing, write_all-IsWritten}
use argonaut.Bridge.Write.{WriteError, slice, failed, short}
use argonaut.Config.Decode.{parse_config, ParseConfigError}
use argonaut.Config.Schema.{Config, host}
use argonaut.Config.Validate.{ConfigError}
use argonaut.Modes.Calls.{
  Calls, Exit, Fatal, serving, usage, start_all, fatal, invalid_cid, config_unreadable,
  config_unparsed, config_invalid, dial_failed, or_fatal, uint32_arg, validated, conn_writer,
}
use argonaut.Modes.Host.Delivery.{Delivers}
use argonaut.Modes.Host.{config_vsock_port, closed, send_config_vsock, run_host, host_mode}
use argonaut.Prelude.{
  ℕ, ◌≡◌, refl, ap, List, [], ◌∷◌, ◌++◌, Option, none, some, Result, ok, err, Bytes, length, arith,
}

-- The ends of the host mode: it serves, or it ends with the usage or with an error.
abbrev pub Ends : Exit → Type 0
Ends serving = Unit
Ends usage = Unit
Ends (fatal why) = Unit
Ends _ = ⊥

or_fatal-Ends {ℓ κ} :
    {S : Type 0} {E : Type ℓ} {A : Type κ} (r : Result E A × S) (why : E → Fatal)
    (next : A → S → Exit × S)
    → ((a : A) (s : S) → Ends (next a s).0)
    → Ends (or_fatal r why next).0
or_fatal-Ends (ok a, s) why next h = h a s
or_fatal-Ends (err e, s) why next h = tt

module _ {S : Type 0} (calls : Calls S) (taken : ℕ → S → Bytes) (laws : Delivers calls taken) where
  closed-Ends :
      (conn : ℕ) (config : Bytes) (s s0 : S) (out : S × Option (WriteError Bytes))
      (next : S → Exit × S)
      → IsWritten (taken conn) s config out
      → ((s : S) → Ends (next s).0)
      → Ends (closed calls conn (some out) next s0).0
  unfolding closed
  closed-Ends conn config s s0 (s1, some slice) next w h = w.no_panic refl
  closed-Ends conn config s s0 (s1, some short) next w h = tt
  closed-Ends conn config s s0 (s1, some (failed e)) next w h = tt
  closed-Ends conn config s s0 (s1, none) next w h = h (calls.close conn s1)

  pub send_config_vsock-Ends :
      (cid port : ℕ) (config : Bytes) (next : S → Exit × S) (s : S)
      → ((s : S) → Ends (next s).0)
      → Ends (send_config_vsock calls cid port config next s).0
  unfolding send_config_vsock
  send_config_vsock-Ends cid port config next s h =
      or_fatal-Ends (calls.dial cid port s) dial_failed _ λ conn s1.
        (let (out, all, w) =
            write_all-IsWritten (conn_writer calls conn) (taken conn) (laws.writes conn)
              (length config) s1 config (omega arith) in
          rw all (closed-Ends conn config s1 s1 out next w h))

  -- With any arguments the host mode ends in one of the three ways.
  host_mode-Ends : (args : List Bytes) (s : S) → Ends (host_mode calls args s).0
  unfolding host_mode run_host
  host_mode-Ends (a ∷ b ∷ c ∷ path ∷ []) s =
      or_fatal-Ends (uint32_arg c, s) invalid_cid _
        λ cid s1. or_fatal-Ends (calls.read_config path s1) config_unreadable _ λ raw s2.
          or_fatal-Ends (parse_config raw, s2) config_unparsed _
            λ parsed s3.
              or_fatal-Ends (validated parsed host, s3) config_invalid _
                λ cfg s4. send_config_vsock-Ends cid config_vsock_port raw _ s4 λ s5. tt
  host_mode-Ends [] s = tt
  host_mode-Ends (a ∷ []) s = tt
  host_mode-Ends (a ∷ b ∷ []) s = tt
  host_mode-Ends (a ∷ b ∷ c ∷ []) s = tt
  host_mode-Ends (a ∷ b ∷ c ∷ d ∷ e ∷ more) s = tt

module _ {S : Type 0} (calls : Calls S) (taken : ℕ → S → Bytes) (laws : Delivers calls taken) where
  -- Given a valid CID and a configuration file that is read, parses and is accepted, a dial of port
  -- 7777 of that CID that succeeds, and a connection that takes something at each write and reports
  -- no error, the host mode serves: the connection took the bytes of the file and was closed, and
  -- then the bridges of the configuration were started.
  pub host_mode-serves :
      (program mode cid_arg path raw : Bytes) (cid conn : ℕ) (parsed cfg : Config) (s : S)
      → uint32_arg cid_arg ≡ ok cid
      → (calls.read_config path s).0 ≡ ok raw
      → parse_config raw ≡ ok parsed
      → validated parsed host ≡ ok cfg
      → (calls.dial cid 7777 (calls.read_config path s).1).0 ≡ ok conn
      → IsWilling (conn_writer calls conn) (taken conn) (laws.writes conn)
      → (wrote : S) × (host_mode calls (program ∷ mode ∷ cid_arg ∷ path ∷ []) s
          ≡ (serving, start_all calls (host_bridges cid cfg) (calls.close conn wrote)))
        × (taken conn wrote
            ≡ taken conn (calls.dial cid 7777 (calls.read_config path s).1).1 ++ raw)
  unfolding host_mode run_host send_config_vsock closed
  host_mode-serves program mode cid_arg path raw cid conn parsed cfg s names file parses accepts
        dialed willing =
      let s1 = (calls.read_config path s).1 in
      let s2 = (calls.dial cid 7777 s1).1 in
      let read : calls.read_config path s ≡ (ok raw, s1) = ap (λ r. (r, s1)) file in
      let opened : calls.dial cid 7777 s1 ≡ (ok conn, s2) = ap (λ r. (r, s2)) dialed in
      let (wrote, all, sent) =
        write_all-Willing (conn_writer calls conn) (taken conn) (laws.writes conn) s2 raw willing in
      (wrote, rw (names, read, parses, accepts, opened, all) refl, sent)

-- The configuration is one that parses and that host validation accepts.
abbrev pub Acceptable : Bytes → Type 0
Acceptable raw =
    (parsed cfg : Config) × (parse_config raw ≡ ok parsed) × (validated parsed host ≡ ok cfg)

module _ {S : Type 0} (calls : Calls S) where
  -- the steps behind the reading
  refused :
      (cid : ℕ) (raw : Bytes) (p : Result ParseConfigError Config) (s : S)
      (next : Config → S → Exit × S)
      → (parse_config raw ≡ p)
      → (Acceptable raw → ⊥)
      → (why : Fatal) × (or_fatal
            (p, s)
            config_unparsed
            (λ parsed s3. or_fatal (validated parsed host, s3) config_invalid next)
          ≡ (fatal why, s))
  refused cid raw (err e) s next h k = (config_unparsed e, refl)
  refused cid raw (ok parsed) s next h k = rejected (validated parsed host) refl
    where
      rejected :
          (v : Result ConfigError Config)
          → validated parsed host ≡ v
          → (why : Fatal) × (or_fatal (v, s) config_invalid next ≡ (fatal why, s))
      rejected (err e) same = (config_invalid e, refl)
      rejected (ok cfg) same = absurd (k (parsed, cfg, h, same))

  -- A configuration file that is read but does not parse, or that host validation rejects, ends the
  -- host mode with an error, in the state that the reading left: nobody is dialed and no bridge is
  -- started.
  pub host_mode-refuses :
      (program mode cid_arg path raw : Bytes) (cid : ℕ) (s : S)
      → uint32_arg cid_arg ≡ ok cid
      → (calls.read_config path s).0 ≡ ok raw
      → (Acceptable raw → ⊥)
      → (why : Fatal) × (host_mode calls (program ∷ mode ∷ cid_arg ∷ path ∷ []) s
          ≡ (fatal why, (calls.read_config path s).1))
  unfolding host_mode run_host
  host_mode-refuses program mode cid_arg path raw cid s names file k =
      let s1 = (calls.read_config path s).1 in
      let read : calls.read_config path s ≡ (ok raw, s1) = ap (λ r. (r, s1)) file in
      rw (names, read) (refused cid raw (parse_config raw) s1 _ refl k)
