-- ===== src/Config/Addr.antt =====
-- `netip.ParseAddr` as config.go uses it: the octets of an IPv4 address.
--
-- A text whose first `.`, `:` or `%` is not a dot is an IPv6 address or an error. The program
-- rejects both alike (`!ip.Is4()`), so both are `none` here.
pub mod Sound
pub mod Complete
use argonaut.Text.Decimal.{itoa, itoa_digit, itoa-snoc, value, IsDigit, itoa-IsDigit}
use argonaut.Text.Split.{join}
use argonaut.Prelude.{
  ℕ, zero, suc, ◌+◌, ◌-◌, ◌*◌, ◌≤◌, ◌<◌, ◌≡◌, ◌≢◌, ◌↔◌, ◌⊎◌, inl, inr, refl, sym, ap, ◌∙◌, Bool,
  true, false, ◌&&◌, ◌||◌, List, [], ◌∷◌, ◌++◌, map, append-nil, append_assoc, Option, none, some,
  arith, ltb, leb, ◌==◌, within, if◌then◌else◌, Bool-cases, Bytes, codes, Lacks, All, All-append,
  length, length-append,
}

abbrev is_nil : Bytes → Bool
is_nil [] = true
is_nil (c ∷ s) = false

-- `parseIPv4Fields`: the value and the number of digits of the current octet, the octets before
-- it, and the unread text. An octet with no digit is refused at the dot behind it (`i == 0 ||
-- s[i-1] == '.'`), and so is a dot at the end.
parse_fields : ℕ → ℕ → List ℕ → Bytes → Option (List ℕ)
parse_fields val dig_len done [] = if ltb (length done) 3 then none else some (done ++ val ∷ [])
parse_fields val dig_len done (c ∷ s) =
    let val' = val * 10 + (c - b'0') in
    let digit = parse_fields val' (dig_len + 1) done s in
    let dot = parse_fields 0 0 (done ++ val ∷ []) s in
    if within b'0' b'9' c
    then (if (dig_len == 1 && val == 0) || ltb 255 val' then none else digit)
    else if c == b'.'
    then (if dig_len == 0 || is_nil s || length done == 3 then none else dot)
    else none

-- The first `.`, `:` or `%` is a dot.
dotted_first : Bytes → Bool
dotted_first [] = false
dotted_first (c ∷ s) =
    let rest = dotted_first s in
    if c == b'.' then true else if c == b':' || c == b'%' then false else rest

-- The octets, if `netip.ParseAddr` returns an address with `Is4`.
unfoldable pub parse_v4 : Bytes → Option (List ℕ)
unfolding parse_fields dotted_first
parse_v4 s = if dotted_first s then parse_fields 0 0 [] s else none

-- `Addr.IsLoopback` for IPv4
abbrev pub is_loopback : List ℕ → Bool
is_loopback [] = false
is_loopback (a ∷ os) = a == 127

-- The dotted print of octets.
abbrev pub dotted : List ℕ → Bytes
dotted os = join b'.' (map itoa os)

abbrev pub IsByte : ℕ → Type 0
IsByte o = o ≤ 255

-- The text is the dotted print of four octets.
pub record Spells (os : List ℕ) (s : Bytes) : Type 0 where
  pub spelled : s ≡ dotted os
  pub four : length os ≡ 4
  pub octets : All IsByte os
