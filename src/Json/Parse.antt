-- ===== src/Json/Parse.antt =====
-- `Decoder.Decode` as far as the value's syntax: recursive descent, on fuel.
pub mod Fuel
pub mod RoundTrip
use argonaut.Json.Numbers.{begin, scan_number}
use argonaut.Json.Strings.{plain, scan_string, unquote}
use argonaut.Json.Value.{
  Json, Items, Members, null, bool, number, text, array, object, no_items, item, no_members, member,
}
use argonaut.Prelude.{
  ℕ, zero, suc, ◌+◌, ◌*◌, Bool, true, false, ◌||◌, List, [], ◌∷◌, Option, none, some, Result, ok,
  err, ◌>>=◌, ◌>>◌, Bytes, codes, length, drop, equal, take, ◌==◌, within, if◌then◌else◌,
}

-- `out_of_fuel` has no counterpart in the program.
pub data ParseError : Type 0 where
  syntax out_of_fuel : ParseError

-- A parser returns what it reads and the text behind it.
abbrev pub Parsed : Type 0 → Type 0
Parsed A = Result ParseError (A × Bytes)

-- `isSpace`
abbrev pub is_space : ℕ → Bool
is_space c = c == b' ' || c == b'\t' || c == b'\r' || c == b'\n'

unfoldable pub skip_space : Bytes → Bytes
skip_space [] = []
skip_space (c ∷ s) = let rest = skip_space s in if is_space c then rest else c ∷ s

-- stateBeginValue, by the first byte of the value
pub data Lead : Type 0 where
  object_lead array_lead text_lead number_lead no_lead : Lead
  word_lead : Bytes → Json → Lead

unfoldable pub lead : ℕ → Lead
lead c =
    if c == b'{'
    then object_lead
    else if c == b'['
    then array_lead
    else if c == b'"'
    then text_lead
    else if c == b'-' || within b'0' b'9' c
    then number_lead
    else if c == b't'
    then word_lead (codes "rue") (bool true)
    else if c == b'f'
    then word_lead (codes "alse") (bool false)
    else if c == b'n'
    then word_lead (codes "ull") null
    else no_lead

-- the rest of `true`, `false` or `null`
word : Bytes → Json → Bytes → Parsed Json
word w v s = if equal (take (length w) s) w then ok (v, drop (length w) s) else err syntax

found : {A : Type 0} → Option (A × Bytes) → Parsed A
found none = err syntax
found (some r) = ok r

-- a string, behind its opening quote
quoted : Bytes → Parsed Bytes
unfolding found
quoted s = do r ← found (scan_string plain s); ok (unquote r.0, r.1)

-- one byte, behind white space
expect : ℕ → Bytes → Parsed (Unit {0})
expect b s = elim (skip_space s) [
  | [] ↦ err syntax
  | c ∷ rest ↦ if c == b then ok (tt, rest) else err syntax
]

-- the comma in front of all but the first item
separator : Bool → Bytes → Parsed (Unit {0})
unfolding expect
separator true s = ok (tt, s)
separator false s = expect b',' s

key : Bytes → Parsed Bytes
unfolding expect quoted
key s = do q ← expect b'"' s; quoted q.1

-- the closing bracket behind white space, and what is behind it
closes : ℕ → Bytes → Option Bytes
closes b s = elim (skip_space s) [ [] ↦ none | c ∷ rest ↦ if c == b then some rest else none ]

-- an array or an object, one level deeper
deeper : {A : Type 0} → (A → Json) → (ℕ → Parsed A) → ℕ → Parsed Json
deeper close inside zero = err syntax
deeper close inside (suc d) = do r ← inside d; ok (close r.0, r.1)

-- A value by its first byte, with the parsers of what is behind a bracket.
by_lead :
    (ℕ → Bool → Bytes → Parsed Items)
    → (ℕ → Bool → Bytes → Parsed Members)
    → ℕ
    → Lead
    → ℕ
    → Bytes
    → Parsed Json
unfolding word quoted found deeper
by_lead parse_items parse_members depth no_lead c rest = err syntax
by_lead parse_items parse_members depth (word_lead w v) c rest = word w v rest
by_lead parse_items parse_members depth number_lead c rest = do
  r ← found (scan_number begin (c ∷ rest))
  ok (number r.0, r.1)
by_lead parse_items parse_members depth text_lead c rest = do r ← quoted rest; ok (text r.0, r.1)
by_lead parse_items parse_members depth array_lead c rest =
    deeper array (λ d. parse_items d true rest) depth
by_lead parse_items parse_members depth object_lead c rest =
    deeper object (λ d. parse_members d true rest) depth

value_at :
    (ℕ → Bool → Bytes → Parsed Items)
    → (ℕ → Bool → Bytes → Parsed Members)
    → ℕ
    → Bytes
    → Parsed Json
unfolding by_lead
value_at parse_items parse_members depth [] = err syntax
value_at parse_items parse_members depth (c ∷ rest) =
    by_lead parse_items parse_members depth (lead c) c rest

-- The value at the head, in at most so many brackets (`maxNestingDepth`), behind white space.
unfoldable mutual
  unfolding value_at separator key closes expect

  pub parse_value : ℕ → ℕ → Bytes → Parsed Json
  parse_value zero depth s = err out_of_fuel
  parse_value (suc f) depth s = value_at (parse_items f) (parse_members f) depth (skip_space s)

  pub parse_items : ℕ → ℕ → Bool → Bytes → Parsed Items
  parse_items zero depth first s = err out_of_fuel
  parse_items (suc f) depth first s = elim (closes b']' s) [
    | some rest ↦ ok (no_items, rest)
    | none ↦ (do
      c ← separator first s
      v ← parse_value f depth c.1
      vs ← parse_items f depth false v.1
      ok (item v.0 vs.0, vs.1))
  ]

  pub parse_members : ℕ → ℕ → Bool → Bytes → Parsed Members
  parse_members zero depth first s = err out_of_fuel
  parse_members (suc f) depth first s = elim (closes b'}' s) [
    | some rest ↦ ok (no_members, rest)
    | none ↦ (do
      c ← separator first s
      k ← key c.1
      d ← expect b':' k.1
      v ← parse_value f depth d.1
      ms ← parse_members f depth false v.1
      ok (member k.0 v.0 ms.0, ms.1))
  ]

-- `maxNestingDepth`
abbrev pub max_depth : ℕ
max_depth = 10000

-- What is behind the value is white space: the program decodes once more and wants `io.EOF`.
at_end : Json × Bytes → Result ParseError Json
at_end (v, rest) = elim (skip_space rest) [ [] ↦ ok v | c ∷ s ↦ err syntax ]

-- A whole text as one value, with as much fuel as it can need.
unfoldable pub parse_json : Bytes → Result ParseError Json
unfolding at_end
parse_json s = parse_value (2 * length s + 2) max_depth s >>= at_end
