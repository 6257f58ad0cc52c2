-- ===== src/Modes/Meeting.antt =====
-- main.go: a host and an enclave that serve the same configuration file.
use argonaut.Bridge.Plan.Agreement.{Meets, Forwards, bridges-Forwards}
use argonaut.Bridge.Plan.{Bridge, host_bridges, enclave_bridges, endpoint_list}
use argonaut.Config.Schema.{Config, host, enclave}
use argonaut.Modes.Calls.{Calls, serving, validated-ok, uint32_arg, start_all}
use argonaut.Modes.Enclave.Ready.{enclave_mode-Steps}
use argonaut.Modes.Enclave.{enclave_mode}
use argonaut.Modes.Host.Delivery.{Delivers, host_mode-IsHost}
use argonaut.Modes.Host.{host_mode}
use argonaut.Nsm.Lines.{eof}
use argonaut.Prelude.{ℕ, ◌≡◌, sym, ap, ◌∙◌, List, [], ◌∷◌, Bytes, Result, ok}

ok-injective : {E A : Type 0} {m : Result E A} {a b : A} → m ≡ ok a → m ≡ ok b → a ≡ b
ok-injective {E} {A} {m} {a} {b} h k =
    let same : ◌≡◌ {A = Result E A} (ok a) (ok b) = sym h ∙ k in cc

module _ {S T : Type 0} (outside : Calls S) (taken : ℕ → S → Bytes) (laws : Delivers outside taken)
    (inside : Calls T) where
  -- The bridges that run on the two sides, and how they meet.
  pub record IsPair (bind cid_arg : Bytes) (s : S) (t : T) : Type 0 where
    pub cid : ℕ
    pub outer : Config
    pub inner : Config
    pub names : uint32_arg cid_arg ≡ ok cid
    pub host_start : S
    pub host_runs : s ≡ start_all outside (host_bridges cid outer) host_start
    pub enclave_start : T
    pub enclave_runs : t ≡ start_all inside (enclave_bridges inner) enclave_start
    pub meets :
        (dialer listener : Bridge) × (hs es : List Bridge) × (host_bridges cid outer ≡ dialer ∷ hs)
        × (enclave_bridges inner ≡ listener ∷ es)
        × Meets dialer listener bind 3 cid
        × Forwards bind cid (endpoint_list inner) hs es

  -- Where the host serves a configuration file, and the enclave serves with that file's bytes on its
  -- standard input, the bridges that the two have started meet: the host's inbound bridge dials the
  -- CID that the host was given and the port of the enclave's inbound listener, which serves
  -- connections from CID 3, the host's. Endpoint by endpoint the enclave's outbound bridge dials CID
  -- 3 and the port on which the host listens for it; that listener serves connections from the CID
  -- that the host was given, and its bridge dials the endpoint's host and tcpPort.
  pub modes-IsPair :
      (bind program mode cid_arg path raw : Bytes) (s s' : S) (t t' : T)
      → host_mode outside (program ∷ mode ∷ cid_arg ∷ path ∷ []) s ≡ (serving, s')
      → enclave_mode inside t ≡ (serving, t')
      → (outside.read_config path s).0 ≡ ok raw
      → (inside.read_stdin t).0 ≡ (raw, eof)
      → IsPair bind cid_arg s' t'
  modes-IsPair bind program mode cid_arg path raw s s' t t' hh he file input =
      let args = program ∷ mode ∷ cid_arg ∷ path ∷ [] in
      let r = host_mode-IsHost outside taken laws args s s' hh in
      let q = enclave_mode-Steps inside t t' he in
      let (p, m, c, shape, names) = r.names in
      let same_path : path ≡ r.path = cc in
      let same_cid : c ≡ cid_arg = cc in
      let file' = rw same_path at file in
      let read_raw : raw ≡ r.raw = ok-injective file' r.reads in
      let same_raw : q.raw ≡ r.raw = ap (λ i. i.0) (sym q.input ∙ input) ∙ read_raw in
      let parses = rw same_raw at q.parses in
      let same_parsed : q.parsed ≡ r.parsed = ok-injective parses r.parses in
      record {
        cid = r.cid;
        outer = r.cfg;
        inner = q.cfg;
        names = rw (sym same_cid) names;
        host_start = outside.close r.delivers.conn r.delivers.wrote;
        host_runs = sym (ap (λ o. o.1) r.delivers.goes_on);
        enclave_start = q.named;
        enclave_runs = q.starts;
        meets =
            bridges-Forwards bind r.cid r.parsed r.cfg q.cfg
              (validated-ok r.parsed r.cfg host r.accepts)
              (validated-ok r.parsed q.cfg enclave (rw same_parsed at q.accepts));
      }
