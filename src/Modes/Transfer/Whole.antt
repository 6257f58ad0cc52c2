-- ===== src/Modes/Transfer/Whole.antt =====
-- main.go: `configSend` and `configRecv` where they finish.
use argonaut.Config.Decode.{read_all_limited, ReadAllError}
use argonaut.Config.Schema.{max_config_bytes}
use argonaut.Modes.Calls.{
  Calls, usage, finished, fatal, invalid_cid, invalid_port, input_unread, listen_failed,
  accept_failed, stdout_failed, or_fatal-IsGood, not_good, uint32_arg,
}
use argonaut.Modes.Host.Delivery.{Delivers, IsSent, send_config_vsock-IsSent}
use argonaut.Modes.Transfer.{
  send_input, config_send, printed_config, received_config, receive_all, config_recv,
}
use argonaut.Nsm.Lines.{InputEnd, eof, broken}
use argonaut.Prelude.{
  ℕ, ◌≡◌, ◌≤◌, refl, sym, ap, ◌∙◌, List, [], ◌∷◌, ◌++◌, Option, none, some, Bytes, Result, ok, err,
  ltb, length, Bool-cases, inl, inr, arith,
}

-- Nothing is lost where the reading succeeds: the input was whole and within the limit.
pub read_all_limited-ok :
    (input : Bytes) (input_end : InputEnd) (limit : ℕ) (raw : Bytes)
    → read_all_limited input input_end limit ≡ ok raw
    → (raw ≡ input) × (input_end ≡ eof) × (length raw ≤ limit)
unfolding read_all_limited
read_all_limited-ok input eof limit raw h = elim (Bool-cases (ltb limit (length input))) [
  | inl e ↦ absurd (let h' = rw e at h in cc)
  | inr e ↦
      let h' = rw e at h in let same : raw ≡ input = cc in (same, refl, rw same (ground arith))
]
read_all_limited-ok input (broken why) limit raw h = elim (Bool-cases (ltb limit (length input))) [
  | inl e ↦ absurd (let h' = rw e at h in cc)
  | inr e ↦ absurd (let h' = rw e at h in cc)
]

module _ {S : Type 0} (calls : Calls S) (taken : ℕ → S → Bytes) (laws : Delivers calls taken) where
  -- A sender that finished: its arguments, its standard input, and the connection that took it.
  pub record IsSender (args : List Bytes) (s s' : S) : Type 0 where
    pub cid : ℕ
    pub port : ℕ
    pub raw : Bytes
    pub names :
        (program mode action cid_arg port_arg : Bytes) × (args
          ≡ program ∷ mode ∷ action ∷ cid_arg ∷ port_arg ∷ [])
        × (uint32_arg cid_arg ≡ ok cid)
        × (uint32_arg port_arg ≡ ok port)
    pub input : (calls.read_stdin s).0 ≡ (raw, eof)
    pub within : length raw ≤ 1048576
    pub delivers :
        IsSent calls taken laws cid port raw
          (calls.read_stdin s).1
          (λ s2. (finished, s2))
          (finished, s')

  -- Where `config send` finishes, its standard input ended without an error and has at most 1048576
  -- bytes, and the connection that was dialed to the CID and the port of its arguments took its very
  -- bytes and was then closed.
  pub config_send-IsSender :
      (args : List Bytes) (s s' : S)
      → config_send calls args s ≡ (finished, s')
      → IsSender args s s'
  unfolding config_send send_input
  config_send-IsSender (a ∷ b ∷ c ∷ cid_arg ∷ port_arg ∷ []) s s' h =
      let (cid, names, h1) = or_fatal-IsGood (uint32_arg cid_arg, s) invalid_cid _ h tt in
      let (port, names', h2) = or_fatal-IsGood (uint32_arg port_arg, s) invalid_port _ h1 tt in
      let input = (calls.read_stdin s).0 in
      let s1 = (calls.read_stdin s).1 in
      let (raw, reads, h3) =
        or_fatal-IsGood (read_all_limited input.0 input.1 max_config_bytes, s1) input_unread _ h2
          tt in
      let (same, whole, small) = read_all_limited-ok input.0 input.1 max_config_bytes raw reads in
      record {
        cid = cid;
        port = port;
        raw = raw;
        names = (a, b, c, cid_arg, port_arg, refl, names, names');
        input = cc;
        within = small;
        delivers = send_config_vsock-IsSent calls taken laws cid port raw _ s1 h3 tt;
      }
  config_send-IsSender [] s s' h = absurd (not_good usage (λ k. k) h tt)
  config_send-IsSender (a ∷ []) s s' h = absurd (not_good usage (λ k. k) h tt)
  config_send-IsSender (a ∷ b ∷ []) s s' h = absurd (not_good usage (λ k. k) h tt)
  config_send-IsSender (a ∷ b ∷ c ∷ []) s s' h = absurd (not_good usage (λ k. k) h tt)
  config_send-IsSender (a ∷ b ∷ c ∷ d ∷ []) s s' h = absurd (not_good usage (λ k. k) h tt)
  config_send-IsSender (a ∷ b ∷ c ∷ d ∷ e ∷ f ∷ more) s s' h = absurd (not_good usage (λ k. k) h tt)

-- What the program relies on: standard output that reports no error has taken all of the bytes,
-- and a connection's end does not touch it.
pub record Prints {S : Type 0} (calls : Calls S) (printed : S → Bytes) : Type 0 where
  pub prints :
      (buf : Bytes) (s : S)
      → (calls.write_stdout buf s).0 ≡ none
      → printed (calls.write_stdout buf s).1 ≡ printed s ++ buf
  pub keeps : (conn : ℕ) (s : S) → printed (calls.close conn s) ≡ printed s

module _ {S : Type 0} (calls : Calls S) (printed : S → Bytes) (laws : Prints calls printed) where
  -- A receiver that finished, and its calls: it listens on the port of its argument, accepts one
  -- connection, closes the listener, reads the connection to its end, prints, and closes it.
  pub record IsReceiver (args : List Bytes) (s s' : S) : Type 0 where
    pub port : ℕ
    pub names :
        (program mode action port_arg : Bytes) × (args ≡ program ∷ mode ∷ action ∷ port_arg ∷ [])
        × (uint32_arg port_arg ≡ ok port)
    pub listener : ℕ
    pub listens : (calls.listen port s).0 ≡ ok listener
    pub conn : ℕ
    pub accepts : (calls.accept listener (calls.listen port s).1).0 ≡ ok conn
    pub raw : Bytes
    pub heard : S
    pub input :
        calls.receive conn
          (calls.close_listener listener (calls.accept listener (calls.listen port s).1).1)
        ≡ ((raw, eof), heard)
    pub within : length raw ≤ 1048576
    pub printed_all : printed s' ≡ printed heard ++ raw
    pub closes : s' ≡ calls.close conn (calls.write_stdout raw heard).1

  printed_config-finished :
      (conn : ℕ) (out : Option Bytes × S) (s' : S)
      → printed_config calls conn out ≡ (finished, s')
      → (out.0 ≡ none) × (s' ≡ calls.close conn out.1)
  unfolding printed_config
  printed_config-finished conn (none, s) s' h = (refl, sym (ap (λ p. p.1) h))
  printed_config-finished conn (some e, s) s' h =
      absurd (not_good (fatal (stdout_failed e)) (λ k. k) h tt)

  received_config-finished :
      (conn : ℕ) (r : Result ReadAllError Bytes) (s s' : S)
      → received_config calls conn r s ≡ (finished, s')
      → (raw : Bytes) × (r ≡ ok raw)
        × (printed s' ≡ printed s ++ raw)
        × (s' ≡ calls.close conn (calls.write_stdout raw s).1)
  unfolding received_config
  received_config-finished conn (err e) s s' h =
      absurd (not_good (fatal (input_unread e)) (λ k. k) h tt)
  received_config-finished conn (ok raw) s s' h =
      let (wrote, ends) = printed_config-finished conn (calls.write_stdout raw s) s' h in
      (raw, refl, ap printed ends ∙ laws.keeps conn _ ∙ laws.prints raw s wrote, ends)

  -- Where `config recv` finishes, it has listened on the port of its argument, accepted one
  -- connection and closed the listener, read the connection to its end without an error, at most
  -- 1048576 bytes, printed the very bytes that came, and closed the connection.
  pub config_recv-IsReceiver :
      (args : List Bytes) (s s' : S)
      → config_recv calls args s ≡ (finished, s')
      → IsReceiver args s s'
  unfolding config_recv receive_all
  config_recv-IsReceiver (a ∷ b ∷ c ∷ port_arg ∷ []) s s' h =
      let (port, names, h1) = or_fatal-IsGood (uint32_arg port_arg, s) invalid_port _ h tt in
      let (listener, listens, h2) = or_fatal-IsGood (calls.listen port s) listen_failed _ h1 tt in
      let s2 = (calls.listen port s).1 in
      let (conn, accepts, h3) = or_fatal-IsGood (calls.accept listener s2) accept_failed _ h2 tt in
      let heard = calls.close_listener listener (calls.accept listener s2).1 in
      let input = (calls.receive conn heard).0 in
      let (raw, reads, shown, closes) =
        received_config-finished conn (read_all_limited input.0 input.1 max_config_bytes) _ s' h3 in
      let (same, whole, small) = read_all_limited-ok input.0 input.1 max_config_bytes raw reads in
      let whole_input : input ≡ (raw, eof) = cc in
      record {
        port = port;
        names = (a, b, c, port_arg, refl, names);
        listener = listener;
        listens = listens;
        conn = conn;
        accepts = accepts;
        raw = raw;
        heard = (calls.receive conn heard).1;
        input = ap (λ i. (i, (calls.receive conn heard).1)) whole_input;
        within = small;
        printed_all = shown;
        closes = closes;
      }
  config_recv-IsReceiver [] s s' h = absurd (not_good usage (λ k. k) h tt)
  config_recv-IsReceiver (a ∷ []) s s' h = absurd (not_good usage (λ k. k) h tt)
  config_recv-IsReceiver (a ∷ b ∷ []) s s' h = absurd (not_good usage (λ k. k) h tt)
  config_recv-IsReceiver (a ∷ b ∷ c ∷ []) s s' h = absurd (not_good usage (λ k. k) h tt)
  config_recv-IsReceiver (a ∷ b ∷ c ∷ d ∷ e ∷ more) s s' h = absurd (not_good usage (λ k. k) h tt)
