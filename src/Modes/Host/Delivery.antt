-- ===== src/Modes/Host/Delivery.antt =====
-- main.go: `hostMode` where it serves, and `sendConfigVSOCK`.
use argonaut.Bridge.Plan.{host_bridges}
use argonaut.Bridge.Write.Total.{IsWriter, write_all-IsWritten}
use argonaut.Bridge.Write.{WriteError, slice, failed, short}
use argonaut.Config.Decode.{parse_config}
use argonaut.Config.Schema.{Config, host}
use argonaut.Modes.Calls.{
  Calls, Exit, usage, serving, panicked, out_of_fuel, fatal, invalid_cid, config_unreadable,
  config_unparsed, config_invalid, dial_failed, uint32_arg, validated, conn_writer, start_all,
  IsGood, or_fatal-IsGood, not_good,
}
use argonaut.Modes.Host.{config_vsock_port, closed, send_config_vsock, run_host, host_mode}
use argonaut.Prelude.{
  ℕ, ◌≡◌, refl, sym, ap, ◌∙◌, List, [], ◌∷◌, ◌++◌, Option, none, some, ok, Bytes, length, arith,
  take, take-length,
}

-- What the program relies on: a connection takes bytes in order, and as many as it says; the bytes
-- that it took are seen in the state.
pub record Delivers {S : Type 0} (calls : Calls S) (taken : ℕ → S → Bytes) : Type 0 where
  pub writes : (conn : ℕ) → IsWriter (conn_writer calls conn) (taken conn)

module _ {S : Type 0} (calls : Calls S) (taken : ℕ → S → Bytes) (laws : Delivers calls taken) where
  closed-IsGood :
      (conn : ℕ) (done : Option (S × Option (WriteError Bytes))) (next : S → Exit × S) (s : S)
      {x : Exit} {s' : S}
      → closed calls conn done next s ≡ (x, s')
      → IsGood x
      → (wrote : S) × (done ≡ some (wrote, none)) × (next (calls.close conn wrote) ≡ (x, s'))
  unfolding closed
  closed-IsGood conn none next s h g = absurd (not_good out_of_fuel (λ k. k) h g)
  closed-IsGood conn (some (s1, some slice)) next s h g = absurd (not_good panicked (λ k. k) h g)
  closed-IsGood conn (some (s1, some short)) next s h g = absurd (not_good (fatal _) (λ k. k) h g)
  closed-IsGood conn (some (s1, some (failed e))) next s h g =
      absurd (not_good (fatal _) (λ k. k) h g)
  closed-IsGood conn (some (s1, none)) next s h g = (s1, refl, h)

  -- A connection was dialed, took all of the bytes and was closed; then the caller went on.
  pub record IsSent (cid port : ℕ) (config : Bytes) (s : S) (next : S → Exit × S) (out : Exit × S)
      : Type 0 where
    pub conn : ℕ
    pub wrote : S
    pub dialed : (calls.dial cid port s).0 ≡ ok conn
    pub sent : taken conn wrote ≡ taken conn (calls.dial cid port s).1 ++ config
    pub goes_on : next (calls.close conn wrote) ≡ out

  pub send_config_vsock-IsSent :
      (cid port : ℕ) (config : Bytes) (next : S → Exit × S) (s : S) {x : Exit} {s' : S}
      → send_config_vsock calls cid port config next s ≡ (x, s')
      → IsGood x
      → IsSent cid port config s next (x, s')
  unfolding send_config_vsock
  send_config_vsock-IsSent cid port config next s h g =
      let (conn, dialed, h1) = or_fatal-IsGood (calls.dial cid port s) dial_failed _ h g in
      let s1 = (calls.dial cid port s).1 in
      let (wrote, all, goes_on) = closed-IsGood conn _ next s1 h1 g in
      let (out, same, w) =
        write_all-IsWritten (conn_writer calls conn) (taken conn) (laws.writes conn) (length config)
          s1 config (omega arith) in
      let whole : out ≡ (wrote, none) = cc in
      let count = w.complete (ap (λ o. o.1) whole) in
      record {
        conn = conn;
        wrote = wrote;
        dialed = dialed;
        sent =
            ap (taken conn) (ap (λ o. o.0) (sym whole))
            ∙ w.written
            ∙ ap (λ n. taken conn s1 ++ take n config) count
            ∙ ap (λ t. taken conn s1 ++ t) (take-length config);
        goes_on = goes_on;
      }

  -- The steps of a host that serves.
  pub record IsHost (args : List Bytes) (s s' : S) : Type 0 where
    pub cid : ℕ
    pub raw : Bytes
    pub parsed : Config
    pub cfg : Config
    pub path : Bytes
    pub names :
        (program mode cid_arg : Bytes) × (args ≡ program ∷ mode ∷ cid_arg ∷ path ∷ [])
        × (uint32_arg cid_arg ≡ ok cid)
    pub reads : (calls.read_config path s).0 ≡ ok raw
    pub parses : parse_config raw ≡ ok parsed
    pub accepts : validated parsed host ≡ ok cfg
    pub delivers :
        IsSent cid config_vsock_port raw
          (calls.read_config path s).1
          (λ s1. (serving, start_all calls (host_bridges cid cfg) s1))
          (serving, s')

  run_host-IsHost :
      (program mode cid_arg path : Bytes) (s s' : S)
      → run_host calls cid_arg path s ≡ (serving, s')
      → IsHost (program ∷ mode ∷ cid_arg ∷ path ∷ []) s s'
  unfolding run_host
  run_host-IsHost program mode cid_arg path s s' h =
      let (cid, names, h1) = or_fatal-IsGood (uint32_arg cid_arg, s) invalid_cid _ h tt in
      let (raw, reads, h2) = or_fatal-IsGood (calls.read_config path s) config_unreadable _ h1 tt in
      let s2 = (calls.read_config path s).1 in
      let (parsed, parses, h3) = or_fatal-IsGood (parse_config raw, s2) config_unparsed _ h2 tt in
      let (cfg, accepts, h4) = or_fatal-IsGood (validated parsed host, s2) config_invalid _ h3 tt in
      record {
        cid = cid;
        raw = raw;
        parsed = parsed;
        cfg = cfg;
        path = path;
        names = (program, mode, cid_arg, refl, names);
        reads = reads;
        parses = parses;
        accepts = accepts;
        delivers = send_config_vsock-IsSent cid config_vsock_port raw _ s2 h4 tt;
      }

  usage_only : {s s' : S} → ◌≡◌ {A = Exit × S} (usage, s) (serving, s') → ⊥
  usage_only h = not_good usage (λ k. k) h tt

  -- Where the host serves, it was given two arguments, the file that the second one names was read,
  -- parsed and accepted, then a connection to port 7777 of the given CID was dialed, took the very
  -- bytes of the file, and was closed, and only then the bridges of the configuration were started.
  pub host_mode-IsHost :
      (args : List Bytes) (s s' : S) → host_mode calls args s ≡ (serving, s') → IsHost args s s'
  unfolding host_mode
  host_mode-IsHost (a ∷ b ∷ c ∷ d ∷ []) s s' h = run_host-IsHost a b c d s s' h
  host_mode-IsHost [] s s' h = absurd (usage_only h)
  host_mode-IsHost (a ∷ []) s s' h = absurd (usage_only h)
  host_mode-IsHost (a ∷ b ∷ []) s s' h = absurd (usage_only h)
  host_mode-IsHost (a ∷ b ∷ c ∷ []) s s' h = absurd (usage_only h)
  host_mode-IsHost (a ∷ b ∷ c ∷ d ∷ e ∷ more) s s' h = absurd (usage_only h)
