-- ===== src/Nsm/Serve/Answers.antt =====
-- nsm.go: the responses of the loop of `nsmMode`, line by line.
use argonaut.Nsm.Hex.{Byte, encode, encode-IsHexDigit}
use argonaut.Nsm.JsonLine.Framing.{failed}
use argonaut.Nsm.JsonLine.OneLine.{
  IsVisible, marshal-IsOneLine, handle_nsm_json_line-IsOneLine, plain-Visible, token-Plain,
  hex-Plain,
}
use argonaut.Nsm.JsonLine.{failure}
use argonaut.Nsm.Legacy.Framing.{IsResponse, ReturnsBytes, handle_nsm_legacy_line-IsResponse}
use argonaut.Nsm.Legacy.{err_line, ok_line}
use argonaut.Nsm.Lines.Slices.{cut_line}
use argonaut.Nsm.Lines.Whole.{IsRead, result_of, read_nsm_line-IsRead}
use argonaut.Nsm.Lines.{
  Reader, InputEnd, eof, broken, LineResult, line_read, too_large, nsm_line_max_size,
  nsm_line_looks_json,
}
use argonaut.Nsm.Request.{NsmBackend}
use argonaut.Nsm.Serve.{
  too_large_response, ServeEnd, input_ended, input_failed, Served, handle_trimmed, handle_nsm_line,
  serve_line, serve_nsm,
}
use argonaut.Nsm.Token.{IsToken}
use argonaut.Text.Trim.{trim_space}
use argonaut.Prelude.{
  ℕ, zero, suc, ◌+◌, ◌≤◌, ◌<◌, ◌≡◌, refl, sym, ap, ◌∙◌, inl, inr, Bool, true, false, [], ◌∷◌, ◌++◌,
  Bytes, codes, length, All, All-append, ltb, ◌==◌, arith, if◌then◌else◌, Bool-cases,
}

err_line-Visible : (id code : Bytes) → IsToken id → IsToken code → All IsVisible (err_line id code)
err_line-Visible id code i c =
    All-append IsVisible id (codes " ERR " ++ code) (plain-Visible id (token-Plain id i.bytes)) (
      All-append IsVisible (codes " ERR ") code (omega arith)
        (plain-Visible code (token-Plain code c.bytes)))

ok_line-Visible :
    (id bytes : Bytes) → IsToken id → All Byte bytes → All IsVisible (ok_line id bytes)
ok_line-Visible id bytes i b =
    All-append IsVisible id (codes " OK " ++ encode bytes)
      (plain-Visible id (token-Plain id i.bytes))
      (All-append IsVisible (codes " OK ") (encode bytes) (omega arith)
        (plain-Visible (encode bytes) (hex-Plain (encode bytes) (encode-IsHexDigit bytes b))))

response-Visible : (out : Bytes) → IsResponse out → All IsVisible out
response-Visible out (IsResponse.failed id code i short c e) = rw e (err_line-Visible id code i c)
response-Visible out (IsResponse.done id bytes i short b e) = rw e (ok_line-Visible id bytes i b)

module _ {S : Type 0} (backend : NsmBackend S) (typed : ReturnsBytes backend) where
  handle_trimmed-Visible : (line : Bytes) (s : S) → All IsVisible (handle_trimmed backend line s).0
  unfolding handle_trimmed
  handle_trimmed-Visible [] s = omega arith
  handle_trimmed-Visible (c ∷ line) s = elim (Bool-cases (c == b'{')) [
    | inl e ↦ rw e ((handle_nsm_json_line-IsOneLine backend (c ∷ line) s typed).visible)
    | inr e ↦
        rw e (response-Visible _ (handle_nsm_legacy_line-IsResponse backend (c ∷ line) s typed))
  ]

  handle_nsm_line-Visible :
      (line : Bytes) (s : S) → All IsVisible (handle_nsm_line backend line s).0
  unfolding handle_nsm_line
  handle_nsm_line-Visible line s = handle_trimmed-Visible (trim_space line) s

too_large-Visible : (json_like : Bool) → All IsVisible (too_large_response json_like)
unfolding too_large_response
too_large-Visible true =
    (marshal-IsOneLine (failure [] (codes "line_too_large")) (
      failed [] (codes "line_too_large") (inl refl) (record { nonempty = cc; bytes = omega arith })
        refl)).visible
too_large-Visible false = omega arith

-- The number of lines in the input that are answered, behind the `n` bytes of one that has begun:
-- every line that ends with a newline, and what stands behind the last, unless it is empty or the
-- reader fails before it is too long.
unfoldable pub answered : ℕ → Bytes → InputEnd → ℕ
answered zero [] eof = 0
answered (suc n) [] eof = 1
answered n [] (broken why) = if ltb nsm_line_max_size n then 1 else 0
answered n (c ∷ s) e =
    let next = answered 0 s e in
    let more = answered (suc n) s e in if c == b'\n' then suc next else more

answered_by : ℕ → InputEnd → (Bytes × Bytes) × Bool → ℕ
answered_by n e ((l, rest), true) = suc (answered 0 rest e)
answered_by n e ((l, rest), false) = answered (n + length l) [] e

answered_by-push :
    (n c : ℕ) (e : InputEnd) (l rest : Bytes) (found : Bool)
    → answered_by (suc n) e ((l, rest), found) ≡ answered_by n e ((c ∷ l, rest), found)
unfolding answered_by
answered_by-push n c e l rest true = refl
answered_by-push n c e l rest false = ap (λ k. answered k [] e) (omega arith)

answered-cut_line :
    (n : ℕ) (s : Bytes) (e : InputEnd) → answered n s e ≡ answered_by n e (cut_line s)
unfolding answered cut_line answered_by
answered-cut_line n [] e = ap (λ k. answered k [] e) (omega arith)
answered-cut_line n (c ∷ s) e = elim (Bool-cases (c == b'\n')) [
  | inl q ↦ rw q
  | inr q ↦ rw q (
      answered-cut_line (suc n) s e
      ∙ answered_by-push n c e (cut_line s).0.0 (cut_line s).0.1 (cut_line s).1)
]

-- The line that is cut off is not empty, and the rest is shorter.
abbrev IsCut : Bytes → (Bytes × Bytes) × Bool → Type 0
IsCut s ((l, rest), true) = (0 < length l) × (length l + length rest ≡ length s)
IsCut s ((l, rest), false) = (rest ≡ []) × (length l ≡ length s)

push-IsCut :
    (c : ℕ) (s : Bytes) (cut : (Bytes × Bytes) × Bool)
    → IsCut s cut
    → IsCut (c ∷ s) ((c ∷ cut.0.0, cut.0.1), cut.1)
push-IsCut c s ((l, rest), true) (p, h) = (omega arith, omega (arith, h))
push-IsCut c s ((l, rest), false) (p, h) = (p, omega (arith, h))

cut_line-IsCut : (s : Bytes) → IsCut s (cut_line s)
unfolding cut_line
cut_line-IsCut [] = (refl, refl)
cut_line-IsCut (c ∷ s) = elim (Bool-cases (c == b'\n')) [
  | inl e ↦ rw e (omega arith, omega arith)
  | inr e ↦ rw e (push-IsCut c s (cut_line s) (cut_line-IsCut s))
]

abbrev end_of : InputEnd → ServeEnd
end_of eof = input_ended
end_of (broken why) = input_failed why

-- As many responses as there are lines to answer, each of them one line, and the loop ends as the
-- input does.
pub record IsServed {S : Type 0} (r : Reader) (out : Served S) : Type 0 where
  pub count : length out.responses ≡ answered 0 r.unread r.input_end
  pub lines : All (All IsVisible) out.responses
  pub ends : out.ended ≡ end_of r.input_end

module _ {S : Type 0} (backend : NsmBackend S) (typed : ReturnsBytes backend) where
  abbrev Good : ℕ → InputEnd → Served S → Type 0
  Good n e out =
      (length out.responses ≡ n) × All (All IsVisible) out.responses × (out.ended ≡ end_of e)

  good :
      {r : Reader} {out : Served S}
      → IsServed r out
      → Good (answered 0 r.unread r.input_end) r.input_end out
  good v = (v.count, v.lines, v.ends)

  -- A line that is read, or too large, has one more response in front.
  line_read-Good :
      (line : Bytes) (s : S) (next : S → Served S) (n : ℕ) (e : InputEnd)
      → ((s : S) → Good n e (next s))
      → Good (suc n) e (serve_line backend (line_read line) s next)
  unfolding serve_line
  line_read-Good line s next n e h =
      let (c, l, q) = h (handle_nsm_line backend line s).1 in
      (ap suc c, (handle_nsm_line-Visible backend typed line s, l), q)

  too_large-Good :
      (json_like : Bool) (s : S) (next : S → Served S) (n : ℕ) (e : InputEnd)
      → ((s : S) → Good n e (next s))
      → Good (suc n) e (serve_line backend (too_large json_like) s next)
  unfolding serve_line
  too_large-Good json_like s next n e h =
      let (c, l, q) = h s in (ap suc c, (too_large-Visible json_like, l), q)

  -- what stands behind the last newline
  last_line-Good :
      (l : Bytes) (s : S) (e : InputEnd) (next : S → Served S)
      → length l ≤ nsm_line_max_size
      → ((s : S) → 0 < length l → Good 0 e (next s))
      → Good (answered (length l) [] e) e (serve_line backend (result_of false e l) s next)
  unfolding answered serve_line
  last_line-Good [] s eof next h k = (refl, tt, refl)
  last_line-Good (c ∷ l) s eof next h k =
      line_read-Good (c ∷ l) s next 0 eof (λ s. k s (omega arith))
  last_line-Good l s (broken why) next h k =
      let fits : ltb nsm_line_max_size (length l) ≡ false = ground (arith, h) in
      rw fits (refl, tt, refl)

  last_large :
      (l : Bytes) (e : InputEnd) → nsm_line_max_size < length l → answered (length l) [] e ≡ 1
  unfolding answered
  last_large [] e h = absurd (omega (arith, h))
  last_large (c ∷ l) eof h = refl
  last_large (c ∷ l) (broken why) h = ground (arith, h)

  nothing_left : (e : InputEnd) → answered 0 [] e ≡ 0
  unfolding answered
  nothing_left eof = refl
  nothing_left (broken why) = refl

  -- A turn, for a line that was cut off like this.
  turn-Good :
      (fuel : ℕ) (r : Reader) (s : S) (cut : (Bytes × Bytes) × Bool) (out : LineResult × Reader)
      → IsCut r.unread cut
      → length r.unread < suc fuel
      → IsRead [] r.input_end cut out
      → ((next : Reader) (s : S)
          → length next.unread < fuel
          → IsServed next (serve_nsm backend fuel next s))
      → Good
          (answered_by 0 r.input_end cut)
          r.input_end
          (serve_line backend out.0 s (serve_nsm backend fuel out.1))
  unfolding answered_by
  turn-Good fuel r s ((l, rest), true) (res, r') cut h v next =
      let after : (s : S)
          → Good (answered 0 rest r.input_end) r.input_end
              (serve_nsm backend fuel (record { unread = rest; input_end = r.input_end }) s) =
        λ s.
          good
            (next (record { unread = rest; input_end = r.input_end }) s (omega (arith, h, cut))) in
      elim (Bool-cases (ltb nsm_line_max_size (length l))) [
        | inl e ↦
            let (part, more, _, _, same) = v.large (ground arith) in
            rw (v.behind, same) (too_large-Good (nsm_line_looks_json part) s _ _ r.input_end after)
        | inr e ↦ rw (v.behind, v.whole (ground arith)) (line_read-Good _ s _ _ r.input_end after)
      ]
  turn-Good fuel r s ((l, rest), false) (res, r') (none_left, size) h v next =
      let z : 0 + length l ≡ length l = omega arith in
      let after : (s : S)
          → 0 < length l
          → Good 0 r.input_end
              (serve_nsm backend fuel (record { unread = []; input_end = r.input_end }) s) =
        λ s p.
          (let v =
              next (record { unread = []; input_end = r.input_end }) s
                (omega (arith, h, size, p)) in
            (v.count ∙ nothing_left r.input_end, v.lines, v.ends)) in
      elim (Bool-cases (ltb nsm_line_max_size (length l))) [
        | inl e ↦
            let large : nsm_line_max_size < length l = ground arith in
            let (part, more, _, _, same) = v.large large in
            rw (v.behind, none_left, same, z, last_large l r.input_end large)
              (too_large-Good (nsm_line_looks_json part) s _ 0 r.input_end
                (λ s. after s (omega (arith, large))))
        | inr e ↦
            let fits : length l ≤ nsm_line_max_size = ground arith in
            rw (v.behind, none_left, v.whole fits, z) (last_line-Good l s r.input_end _ fits after)
      ]

  -- With more fuel than there is input, and a backend that returns bytes, the loop prints exactly
  -- one response for every line of the input, of any length, and one for what stands behind the last
  -- newline unless that is empty or the reader fails there within 1048576 bytes; no response has a
  -- control character, so each is one line; and the loop ends as the input does.
  pub serve_nsm-IsServed :
      (fuel : ℕ) (r : Reader) (s : S)
      → length r.unread < fuel
      → IsServed r (serve_nsm backend fuel r s)
  unfolding serve_nsm
  serve_nsm-IsServed zero r s h = absurd (omega (arith, h))
  serve_nsm-IsServed (suc fuel) r s h =
      let (out, read, v) = read_nsm_line-IsRead (suc (length r.unread)) r (omega arith) in
      let (c, l, q) =
        turn-Good fuel r s (cut_line r.unread) out (cut_line-IsCut r.unread) h v
          (λ next s. serve_nsm-IsServed fuel next s) in
      rw (read, serve_nsm)
        (record { count = c ∙ sym (answered-cut_line 0 r.unread r.input_end); lines = l; ends = q })
