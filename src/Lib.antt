-- ===== src/Lib.antt =====
-- argonaut, the companion binary of AWS Nitro Enclaves: a model of its Go source and theorems
-- about the model.
--
-- The program runs on the host and inside the enclave. The host reads a configuration, validates
-- it and sends it to the enclave, which validates it again, writes a managed block into /etc/hosts
-- and starts its bridges (config.go, hosts.go, main.go). `argonaut nsm` answers attestation and
-- random number requests, a line each, from the NSM device (nsm.go).
--
-- Files and sources:
--   Prelude       Boolean tests, lists measured by native numbers, byte texts, results.
--   Text          what the program uses of Go's strings, strconv and fmt: Index (HasPrefix, Index),
--                 Trim (TrimRight, TrimSpace), Split (Split, Fields), Lower (ToLower), Decimal
--                 (Itoa, Sprint).
--   Config        config.go. Schema: the structs and normalizeConfig. Hostname: validateHostname.
--                 Addr: netip.ParseAddr as far as the program looks at its result. Check:
--                 ValidateEndpoint, endpointLocalIP. Validate: ValidateConfig, with its three maps
--                 as association lists. Decode: both UnmarshalJSON, ParseConfig, readAllLimited.
--                 Decode/Encode writes a configuration as JSON. Address, the children of Validate
--                 and the others of Decode hold the proofs.
--   Hosts         hosts.go: mergeHosts, renderHosts, stripManagedHostsBlock. File: writeHosts,
--                 writeFileAtomic and syncDir, over operations on files that are parameters.
--                 Block, Strip, Merge, Lines and File/Atomic hold the proofs.
--   Json          what the program uses of encoding/json: Value (the parsed text), Strings (the
--                 scanner's states, unquoting and quoting), Numbers, Parse (the grammar, and
--                 ensureNoTrailingJSON), Print (compact texts), Decode (into strings and integers,
--                 and how a key matches a field). Their child modules hold the lemmas.
--   Nsm           nsm.go. Hex: encoding/hex, decodeRequiredHex, decodeOptionalHex and
--                 decodeOptionalLegacyHex. Token: validNsmID, protocolError. Request: the
--                 request, NsmBackend, validateAttestationRequest. Legacy: handleNsmLegacyLine.
--                 JsonLine: handleNsmJSONLine, marshalNsmJSONResponse. Serve: handleNsmLine and
--                 the loop of nsmMode. Lines: readNsmLine, over a bufio.Reader. Device: the
--                 CBOR messages, nsmIoctl and NitroBackend, over a CBOR library and a system
--                 call that are parameters.
--   Bridge        main.go. Limiter: connectionLimiter. Plan: the bridges that hostMode and
--                 enclaveMode start, where each listens and what it dials. Accept: the loops of
--                 hostInboundBridge, hostOutboundBridge, inboundBridge and outboundProxy, with
--                 their goroutines. Copy: copyBidirectionalResult. Dial: bridgeToTCPHost,
--                 bridgeToVSOCK, bridgeToTCP. Write: writeAll. Env: envInt, envBool, envString.
--                 Idle: withIdleTimeout, idleTimeoutConn, closeWrite. Their child modules hold
--                 the proofs.
--   Scripts       scripts/nitro-smoke and scripts/nitro-bench. Smoke: testNSM, parseSmokeEndpoint,
--                 verifyHostsBlock and the checks on lines of enclave-runner, and host-echo's
--                 answer. Bench: writePayload and the /bytes/ handler of enclave-server.
--                 Smoke/Service and Bench/Payload hold the proofs.
--   Loopback      loopback_linux.go: ensureLoopbackUp, over system calls that are parameters. Up
--                 holds the proof.
--   Modes         main.go. Calls: what the modes call, and how a process ends. Host: hostMode and
--                 sendConfigVSOCK. Enclave: enclaveMode. Transfer: configMode, configSend,
--                 configRecv. Dispatch: main. Meeting and the child modules hold the proofs.
--   Tests         runs at concrete inputs.
--
-- Conventions: a string or byte slice is a list of byte values, a slice that may be nil an
-- `Option`. A function that returns `error` returns a `Result`, or an `Option` of the error
-- beside a state; the program's own errors have one constructor for each message. uint16 and
-- uint32 fields are natural numbers; the source does no arithmetic on them. A pointer that is
-- mutated is passed in and returned. The backend of the NSM service is a parameter with a
-- state, since the device answers differently from call to call. Loops are structural
-- recursions; `itoa` recurs on fuel n + 1, which is more than the number of digits of n.
--
-- Goroutines are steps that may come in any order: an accept loop and its goroutines are the
-- relation Accept.Reach, the two directions of a copy run by a schedule that says whose turn it
-- is. A deferred call is made at the end of the goroutine's step; a receive on an empty channel
-- is `none`. The dialer, io.Copy and an io.Writer are parameters, and in Dial the whole copy.
-- writeAll runs on fuel; as much as the data has bytes is enough, and as much as the size for
-- writePayload. readNsmLine runs on fuel too; more than the unread input is enough, since each
-- full buffer takes 4096 bytes of it. The buffered reader is the unread input and what ends it;
-- what its ReadSlice returns does not depend on the sizes of the reads behind it.
--
-- The JSON reader runs on fuel, 2 n + 2 for a text of n bytes, and with 10000 as the depth that
-- encoding/json allows; every call takes a byte, or closes or continues a list whose bytes pay
-- for it, so that is enough (Json.Parse.Fuel). Unquoting replaces invalid UTF-8 and lone
-- surrogates as Go does. A slice is decoded onto its backing array, which a second `endpoints`
-- key reuses. Of an error only that the JSON is invalid is kept. The loop of nsmMode runs on
-- fuel, one turn for each line, so more than the unread input is enough.
--
-- A mode is a function of the arguments and of a state that the calls change; the calls are
-- fields of a record, and a goroutine that is started is one call. What a bridge does then is
-- modelled in Bridge. A mode that waits for its bridges ends as `serving`.
--
-- White space is recognised by its UTF-8 encoding, as `unicode.IsSpace` defines it. ToLower is
-- modelled on ASCII, which is all that it is called with.
--
-- Not modelled: opening the NSM device, envDuration (time.ParseDuration computes with floating
-- point), that a deadline passes, the connection numbers of main.go, which only label the log,
-- logging itself and the text of the usage; of the programs under scripts/ their processes,
-- HTTP servers, deadlines, and the loops that dial and accept.
mod Prelude
pub mod Text
pub mod Config
pub mod Hosts
pub mod Json
pub mod Nsm
pub mod Bridge
pub mod Loopback
pub mod Modes
pub mod Scripts
mod Tests
