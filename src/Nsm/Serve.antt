-- ===== src/Nsm/Serve.antt =====
-- nsm.go: `handleNsmLine`, and the loop of `nsmMode`.
pub mod Answers
use argonaut.Nsm.JsonLine.{handle_nsm_json_line, marshal_nsm_json_response, failure}
use argonaut.Nsm.Legacy.{handle_nsm_legacy_line}
use argonaut.Nsm.Lines.{
  Reader, InputEnd, eof, broken, LineResult, line_read, no_line, too_large, read_nsm_line,
}
use argonaut.Nsm.Request.{NsmBackend}
use argonaut.Text.Trim.{trim_space}
use argonaut.Prelude.{
  ℕ, zero, suc, ◌+◌, Bool, true, false, List, [], ◌∷◌, ◌++◌, Option, none, some, Bytes, codes,
  length, ◌==◌, if◌then◌else◌,
}

-- The response to a line that is too large.
unfoldable pub too_large_response : Bool → Bytes
too_large_response true = marshal_nsm_json_response (failure [] (codes "line_too_large"))
too_large_response false = codes "0 ERR line_too_large"

-- How the loop ends: at the end of the input, or with another error of the reader, which is logged.
-- `out_of_fuel` has no counterpart in the program.
pub data ServeEnd : Type 0 where
  input_ended : ServeEnd
  input_failed : Bytes → ServeEnd
  out_of_fuel : ServeEnd

-- The responses, in order, the end, and the state of the device.
pub record Served (S : Type 0) : Type 0 where
  pub responses : List Bytes
  pub ended : ServeEnd
  pub state : S

module _ {S : Type 0} (backend : NsmBackend S) where
  -- behind `strings.TrimSpace`
  handle_trimmed : Bytes → S → Bytes × S
  handle_trimmed [] s = (codes "0 ERR empty_request", s)
  handle_trimmed (c ∷ line) s =
      if c == b'{'
      then handle_nsm_json_line backend (c ∷ line) s
      else handle_nsm_legacy_line backend (c ∷ line) s

  unfoldable pub handle_nsm_line : Bytes → S → Bytes × S
  unfolding handle_trimmed
  handle_nsm_line line s = handle_trimmed (trim_space line) s

  abbrev pub with_response : Bytes → Served S → Served S
  with_response response out = record out { responses = response ∷ out.responses }

  -- One turn, by what `readNsmLine` returns.
  serve_line : LineResult → S → (S → Served S) → Served S
  serve_line (line_read line) s next =
      let (response, s') = handle_nsm_line line s in with_response response (next s')
  serve_line (too_large json_like) s next = with_response (too_large_response json_like) (next s)
  serve_line (no_line eof) s next = record { responses = []; ended = input_ended; state = s }
  serve_line (no_line (broken why)) s next = record {
    responses = [];
    ended = input_failed why;
    state = s;
  }

  -- The loop of `nsmMode`, whose responses are each printed as one line and flushed.
  unfoldable pub serve_nsm : ℕ → Reader → S → Served S
  unfolding serve_line
  serve_nsm zero r s = record { responses = []; ended = out_of_fuel; state = s }
  serve_nsm (suc fuel) r s = elim (read_nsm_line (suc (length r.unread)) [] r) [
    | none ↦ record { responses = []; ended = out_of_fuel; state = s }
    | some (l, r') ↦ serve_line l s (serve_nsm fuel r')
  ]
