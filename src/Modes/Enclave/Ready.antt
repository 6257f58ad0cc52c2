-- ===== src/Modes/Enclave/Ready.antt =====
-- main.go: `enclaveMode` where it serves.
use argonaut.Bridge.Plan.{enclave_bridges, endpoint_list}
use argonaut.Config.Decode.{parse_config, read_all_limited}
use argonaut.Config.Schema.{Config, enclave, max_config_bytes}
use argonaut.Hosts.File.Atomic.{FileLaws, text_of, write_hosts-Merged}
use argonaut.Hosts.File.{write_hosts}
use argonaut.Hosts.{hosts_path, merge_hosts}
use argonaut.Loopback.Up.{NetLaws, ensure_loopback_up-IsUp}
use argonaut.Loopback.{ensure_loopback_up}
use argonaut.Modes.Calls.{
  Calls, Exit, serving, fatal, config_unparsed, config_invalid, input_unread, loopback_down,
  hosts_unwritten, Fatal, or_fatal-IsGood, validated, start_all,
}
use argonaut.Modes.Enclave.{unless_failed, serve_enclave, configured, enclave_mode}
use argonaut.Modes.Transfer.Whole.{read_all_limited-ok}
use argonaut.Nsm.Lines.{eof}
use argonaut.Prelude.{ℕ, ◌≤◌, ◌%◌, ◌∙◌, length, ◌≡◌, refl, sym, ap, Option, none, some, Bytes, ok}

unless_failed-serving :
    {S E : Type 0} (calls : Calls S) (r : Option E × S) (why : E → Fatal) (next : S → Exit × S)
    {s' : S}
    → unless_failed calls r why next ≡ (serving, s')
    → (r.0 ≡ none) × (next r.1 ≡ (serving, s'))
unless_failed-serving calls (none, s) why next h = (refl, h)
unless_failed-serving calls (some e, s) why next h =
    absurd (let bad : fatal (why e) ≡ serving = ap (λ p. p.0) h in cc)

module _ {S : Type 0} (calls : Calls S) where
  -- The steps of an enclave that serves, in their order: all of standard input is read.
  pub record Steps (s s' : S) : Type 0 where
    pub raw : Bytes
    pub parsed : Config
    pub cfg : Config
    pub input : (calls.read_stdin s).0 ≡ (raw, eof)
    pub within : length raw ≤ 1048576
    pub parses : parse_config raw ≡ ok parsed
    pub accepts : validated parsed enclave ≡ ok cfg
    pub raised : S
    pub up : ensure_loopback_up calls.net (calls.read_stdin s).1 ≡ (none, raised)
    pub named : S
    pub hosts : write_hosts calls.files hosts_path (endpoint_list cfg) raised ≡ (none, named)
    pub starts : s' ≡ start_all calls (enclave_bridges cfg) named

  configured-Steps : (s s' : S) → configured calls (calls.read_stdin s) ≡ (serving, s') → Steps s s'
  unfolding configured serve_enclave
  configured-Steps s s' h =
      let s1 = (calls.read_stdin s).1 in
      let input = (calls.read_stdin s).0 in
      let (raw, reads, h1) =
        or_fatal-IsGood (read_all_limited input.0 input.1 max_config_bytes, s1) input_unread _ h
          tt in
      let (parsed, parses, h2) = or_fatal-IsGood (parse_config raw, s1) config_unparsed _ h1 tt in
      let (cfg, accepts, h3) =
        or_fatal-IsGood (validated parsed enclave, s1) config_invalid _ h2 tt in
      let (up, h4) =
        unless_failed-serving calls (ensure_loopback_up calls.net s1) loopback_down _ h3 in
      let s2 = (ensure_loopback_up calls.net s1).1 in
      let (hosts, h5) =
        unless_failed-serving calls (write_hosts calls.files hosts_path (endpoint_list cfg) s2)
          hosts_unwritten _ h4 in
      let (same, whole, small) = read_all_limited-ok input.0 input.1 max_config_bytes raw reads in
      record {
        raw = raw;
        parsed = parsed;
        cfg = cfg;
        input = cc;
        within = small;
        parses = parses;
        accepts = accepts;
        raised = s2;
        up = ap (λ e. (e, s2)) up;
        named = (write_hosts calls.files hosts_path (endpoint_list cfg) s2).1;
        hosts = ap (λ e. (e, (write_hosts calls.files hosts_path (endpoint_list cfg) s2).1)) hosts;
        starts = sym (ap (λ p. p.1) h5);
      }

  pub enclave_mode-Steps : (s s' : S) → enclave_mode calls s ≡ (serving, s') → Steps s s'
  unfolding enclave_mode
  enclave_mode-Steps s s' h = configured-Steps s s' h

module _ {S : Type 0} (calls : Calls S) (flags : S → ℕ) (net_laws : NetLaws calls.net flags)
    (view : S → Bytes → Option Bytes) (file_laws : FileLaws calls.files view hosts_path) where
  -- The steps, the flags of the loopback interface behind its step, and the hosts file behind its.
  pub record IsEnclave (s s' : S) : Type 0 where
    pub steps : Steps calls s s'
    pub up : flags steps.raised % 2 ≡ 1
    pub content : Bytes
    pub merged :
        merge_hosts (text_of (view steps.raised hosts_path)) (endpoint_list steps.cfg) ≡ ok content
    pub named : view steps.named hosts_path ≡ some content

  -- For system calls and file operations that do what the program relies on: where the enclave
  -- serves, its standard input ended without an error and has at most 1048576 bytes, which parse and
  -- are accepted. Then the loopback interface was raised and is up, and the hosts file was replaced
  -- by the merge of its text with the configuration's endpoints, both without an error. Only then
  -- the configuration's bridges were started.
  pub enclave_mode-IsEnclave : (s s' : S) → enclave_mode calls s ≡ (serving, s') → IsEnclave s s'
  enclave_mode-IsEnclave s s' h =
      let t = enclave_mode-Steps calls s s' h in
      let net_ok = (ensure_loopback_up-IsUp calls.net flags net_laws (calls.read_stdin s).1).0 in
      let raised = net_ok (ap (λ r. r.0) t.up) in
      let file_ok =
        (write_hosts-Merged calls.files view hosts_path file_laws (endpoint_list t.cfg)
          t.raised).0 in
      let (content, merged, named) = file_ok (ap (λ r. r.0) t.hosts) in
      record {
        steps = t;
        up = ap (λ r. flags r.1 % 2) (sym t.up) ∙ raised.0;
        content = content;
        merged = merged;
        named = ap (λ r. view r.1 hosts_path) (sym t.hosts) ∙ named;
      }
