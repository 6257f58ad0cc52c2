-- ===== src/Json/Parse/RoundTrip.antt =====
-- The parser on printed values.
use argonaut.Json.Numbers.Decimals.{IsNumber, Stops}
use argonaut.Json.Parse.{
  skip_space, lead, is_space, number_lead, by_lead, value_at, deeper, word, found, quoted, expect,
  separator, key, closes, parse_value, parse_items, parse_members, parse_json, at_end, max_depth,
}
use argonaut.Json.Print.{comma, quoted_text, print, print_items, print_members}
use argonaut.Json.Strings.Plain.{IsPlain, quote_plain, scan_plain, unquote_plain}
use argonaut.Json.Strings.{quote}
use argonaut.Json.Value.{
  Json, Items, Members, null, bool, number, text, array, object, no_items, item, no_members, member,
}
use argonaut.Prelude.{
  ℕ, zero, suc, ◌+◌, ◌*◌, ◌≤◌, ◌<◌, ◌≡◌, ◌≢◌, ◌⊎◌, refl, ap, inl, inr, Bool, true, false, [], ◌∷◌,
  ◌++◌, append_assoc, append-nil, Option, none, some, Result, ok, err, ◌>>=◌, Bytes, codes, All,
  length, length-append, ◌==◌, arith, if◌then◌else◌,
}

-- Strings of plain bytes, numbers that are read whole, and at most so many brackets deep.
abbrev mutual
  pub IsPrintable : ℕ → Json → Type 0
  IsPrintable d null = Unit
  IsPrintable d (bool b) = Unit
  IsPrintable d (number n) = IsNumber n
  IsPrintable d (text s) = All IsPlain s
  IsPrintable zero (array vs) = ⊥
  IsPrintable (suc d) (array vs) = ArePrintable d vs
  IsPrintable zero (object ms) = ⊥
  IsPrintable (suc d) (object ms) = MembersPrintable d ms

  pub ArePrintable : ℕ → Items → Type 0
  ArePrintable d no_items = Unit
  ArePrintable d (item v vs) = IsPrintable d v × ArePrintable d vs

  pub MembersPrintable : ℕ → Members → Type 0
  MembersPrintable d no_members = Unit
  MembersPrintable d (member k v ms) = All IsPlain k × IsPrintable d v × MembersPrintable d ms

quoted_plain : (s rest : Bytes) → All IsPlain s → quoted (quote s ++ b'"' ∷ rest) ≡ ok (s, rest)
unfolding quoted found
quoted_plain s rest h = rw (quote_plain s h, scan_plain s rest h, unquote_plain s h)

-- A printed value begins neither with white space nor with a closing bracket.
abbrev Begins : Bytes → Type 0
Begins s = (c : ℕ) × (t : Bytes) × (s ≡ c ∷ t) × (skip_space s ≡ s) × (closes b']' s ≡ none)

print-Begins : (v : Json) (d : ℕ) (rest : Bytes) → IsPrintable d v → Begins (print v ++ rest)
unfolding print skip_space closes
print-Begins null d rest h = (b'n', codes "ull" ++ rest, refl, refl, refl)
print-Begins (bool true) d rest h = (b't', codes "rue" ++ rest, refl, refl, refl)
print-Begins (bool false) d rest h = (b'f', codes "alse" ++ rest, refl, refl, refl)
print-Begins (number n) d rest h =
    let digit = h.digit in rw h.shape (h.first, h.more ++ rest, refl, ground arith, ground arith)
print-Begins (text s) d rest h = (b'"', (quote s ++ b'"' ∷ []) ++ rest, refl, refl, refl)
print-Begins (array vs) d rest h = (b'[', print_items vs true ++ rest, refl, refl, refl)
print-Begins (object ms) d rest h = (b'{', print_members ms true ++ rest, refl, refl, refl)

separator-comma : (first : Bool) (s : Bytes) → separator first (comma first ++ s) ≡ ok (tt, s)
unfolding separator expect skip_space
separator-comma true s = refl
separator-comma false s = refl

-- behind a comma, or a value that does not begin with it, no bracket closes
closes-comma :
    (b : ℕ) (first : Bool) (s : Bytes)
    → b ≢ b','
    → closes b s ≡ none
    → closes b (comma first ++ s) ≡ none
unfolding closes skip_space
closes-comma b true s n h = h
closes-comma b false s n h = let other : (b',' == b) ≡ false = ground (arith, n) in rw other

key_quoted : (k rest : Bytes) → All IsPlain k → key (quoted_text k ++ rest) ≡ ok (k, rest)
unfolding key expect skip_space
key_quoted k rest h =
    let e : (quote k ++ b'"' ∷ []) ++ rest ≡ quote k ++ b'"' ∷ rest =
      append_assoc (quote k) (b'"' ∷ []) rest in
    rw (e, quoted_plain k rest h)

items-Stops : (vs : Items) (rest : Bytes) → Stops (print_items vs false ++ rest)
unfolding print_items
items-Stops no_items rest = inr (inl refl)
items-Stops (item v vs) rest = inl refl

members-Stops : (ms : Members) (rest : Bytes) → Stops (print_members ms false ++ rest)
unfolding print_members
members-Stops no_members rest = inr (inr refl)
members-Stops (member k v ms) rest = inl refl

length-print_pos : (v : Json) (d : ℕ) → IsPrintable d v → 0 < length (print v)
unfolding print
length-print_pos (number n) d h = rw h.shape (omega arith)
length-print_pos null d h = omega arith
length-print_pos (bool true) d h = omega arith
length-print_pos (bool false) d h = omega arith
length-print_pos (text s) d h = omega arith
length-print_pos (array vs) d h = omega arith
length-print_pos (object ms) d h = omega arith

number_lem :
    (f d : ℕ) (n rest : Bytes)
    → IsNumber n
    → Stops rest
    → parse_value (suc f) d (n ++ rest) ≡ ok (number n, rest)
unfolding parse_value value_at by_lead skip_space lead found
number_lem f d n rest h k =
    let digit = h.digit in
    let r = h.reads rest k in
    let r' = rw h.shape at r in
    let solid : is_space h.first ≡ false = ground arith in
    let leads : lead h.first ≡ number_lead = ground arith in
    rw h.shape (rw (solid, value_at, leads, by_lead, found) (rw r'))

-- Enough fuel and depth read a value off what was printed, and leave what follows.
abbrev ReadsValue : Json → Type 0
ReadsValue v =
    (d f : ℕ) (rest : Bytes)
    → IsPrintable d v
    → Stops rest
    → 2 * length (print v) < f
    → parse_value f d (print v ++ rest) ≡ ok (v, rest)

abbrev ReadsItems : Items → Type 0
ReadsItems vs =
    (first : Bool) (d f : ℕ) (rest : Bytes)
    → ArePrintable d vs
    → suc (2 * length (print_items vs first)) < f
    → parse_items f d first (print_items vs first ++ rest) ≡ ok (vs, rest)

abbrev ReadsMembers : Members → Type 0
ReadsMembers ms =
    (first : Bool) (d f : ℕ) (rest : Bytes)
    → MembersPrintable d ms
    → suc (2 * length (print_members ms first)) < f
    → parse_members f d first (print_members ms first ++ rest) ≡ ok (ms, rest)

array_lem : (vs : Items) → ReadsItems vs → ReadsValue (array vs)
unfolding print parse_value value_at by_lead skip_space lead deeper
array_lem vs ih d zero rest h k l = absurd (omega (arith, l))
array_lem vs ih zero (suc f) rest h k l = absurd h
array_lem vs ih (suc d) (suc f) rest h k l = rw (ih true d f rest h (omega (arith, l)))

object_lem : (ms : Members) → ReadsMembers ms → ReadsValue (object ms)
unfolding print parse_value value_at by_lead skip_space lead deeper
object_lem ms ih d zero rest h k l = absurd (omega (arith, l))
object_lem ms ih zero (suc f) rest h k l = absurd h
object_lem ms ih (suc d) (suc f) rest h k l = rw (ih true d f rest h (omega (arith, l)))

scalar_text : (s : Bytes) → ReadsValue (text s)
unfolding print parse_value value_at by_lead skip_space lead found
scalar_text s d zero rest h k l = absurd (omega (arith, l))
scalar_text s d (suc f) rest h k l =
    rw (append_assoc (quote s) (b'"' ∷ []) rest, quoted_plain s rest h)

scalar_number : (n : Bytes) → ReadsValue (number n)
unfolding print
scalar_number n d zero rest h k l = absurd (omega (arith, l))
scalar_number n d (suc f) rest h k l = number_lem f d n rest h k

scalar_word : (v : Json) → (v ≡ null) ⊎ (v ≡ bool true) ⊎ (v ≡ bool false) → ReadsValue v
unfolding print parse_value value_at by_lead skip_space lead word argonaut.Prelude.equal
scalar_word v e d zero rest h k l = absurd (omega (arith, l))
scalar_word v (inl e) d (suc f) rest h k l = rw (e)
scalar_word v (inr (inl e)) d (suc f) rest h k l = rw (e)
scalar_word v (inr (inr e)) d (suc f) rest h k l = rw (e)

items_step :
    (f d : ℕ) (first : Bool) (s s1 s2 s3 : Bytes) (v : Json) (vs : Items)
    → closes b']' s ≡ none
    → separator first s ≡ ok (tt, s1)
    → parse_value f d s1 ≡ ok (v, s2)
    → parse_items f d false s2 ≡ ok (vs, s3)
    → parse_items (suc f) d first s ≡ ok (item v vs, s3)
unfolding parse_items closes
items_step f d first s s1 s2 s3 v vs a b c e = rw (a, parse_items) (rw (b, c, e))

item_lem : (v : Json) (vs : Items) → ReadsValue v → ReadsItems vs → ReadsItems (item v vs)
unfolding print_items
item_lem v vs ihv ihs first d zero rest h l = absurd (omega (arith, l))
item_lem v vs ihv ihs first d (suc f) rest (hv, hs) l =
    let tail = print_items vs false ++ rest in
    let (c, t, e, sp, cl) = print-Begins v d tail hv in
    let opens = closes-comma b']' first (print v ++ tail) (λ q. absurd (ground (arith, q))) cl in
    let pos = length-print_pos v d hv in
    let size = length-append (comma first) (print v ++ print_items vs false) in
    let size' = length-append (print v) (print_items vs false) in
    let here = ihv d f tail hv (items-Stops vs rest) (omega (arith, l, size, size')) in
    let there = ihs false d f rest hs (omega (arith, l, size, size', pos)) in
    rw
      (
        append_assoc (comma first) (print v ++ print_items vs false) rest,
        append_assoc (print v) (print_items vs false) rest,
      )
      (items_step f d first _ _ tail rest v vs opens (separator-comma first _) here there)

members_step :
    (f d : ℕ) (first : Bool) (s s1 s2 s3 s4 s5 k : Bytes) (v : Json) (ms : Members)
    → closes b'}' s ≡ none
    → separator first s ≡ ok (tt, s1)
    → key s1 ≡ ok (k, s2)
    → expect b':' s2 ≡ ok (tt, s3)
    → parse_value f d s3 ≡ ok (v, s4)
    → parse_members f d false s4 ≡ ok (ms, s5)
    → parse_members (suc f) d first s ≡ ok (member k v ms, s5)
unfolding parse_members closes
members_step f d first s s1 s2 s3 s4 s5 k v ms a b c e g h =
    rw (a, parse_members) (rw (b, c, e, g, h))

-- what stands behind a value in an object
abbrev behind : Json → Members → Bytes
behind v ms = b':' ∷ (print v ++ print_members ms false)

member_text :
    (first : Bool) (k rest : Bytes) (v : Json) (ms : Members)
    → print_members (member k v ms) first ++ rest
      ≡ comma first ++ (quoted_text k ++ b':' ∷ (print v ++ (print_members ms false ++ rest)))
unfolding print_members
member_text first k rest v ms = rw (
  append_assoc (comma first) (quoted_text k ++ behind v ms) rest,
  append_assoc (quoted_text k) (behind v ms) rest,
  append_assoc (print v) (print_members ms false) rest,
)

member_size :
    (first : Bool) (k : Bytes) (v : Json) (ms : Members)
    → 2 + length (print v) + length (print_members ms false)
      ≤ length (print_members (member k v ms) first)
unfolding print_members
member_size first k v ms =
    let a = length-append (comma first) (quoted_text k ++ behind v ms) in
    let b = length-append (quoted_text k) (behind v ms) in
    let c = length-append (print v) (print_members ms false) in omega (arith, a, b, c)

member_lem :
    (k : Bytes) (v : Json) (ms : Members)
    → ReadsValue v
    → ReadsMembers ms
    → ReadsMembers (member k v ms)
member_lem k v ms ihv ihs first d zero rest h l = absurd (omega (arith, l))
member_lem k v ms ihv ihs first d (suc f) rest (hk, hv, hs) l =
    let tail = print_members ms false ++ rest in
    let after = b':' ∷ (print v ++ tail) in
    let opens : closes b'}' (comma first ++ (quoted_text k ++ after)) ≡ none =
      closes-comma b'}' first _ (λ q. absurd (ground (arith, q)))
        (unfold closes skip_space in refl) in
    let size = member_size first k v ms in
    let here = ihv d f tail hv (members-Stops ms rest) (omega (arith, l, size)) in
    let there = ihs false d f rest hs (omega (arith, l, size)) in
    rw (member_text first k rest v ms) (
      members_step f d first _ _ after (print v ++ tail) tail rest k v ms opens
        (separator-comma first _) (key_quoted k after hk) (unfold expect skip_space in refl) here
        there)

no_items_lem : ReadsItems no_items
unfolding parse_items print_items closes skip_space
no_items_lem first d zero rest h l = absurd (omega (arith, l))
no_items_lem first d (suc f) rest h l = refl

no_members_lem : ReadsMembers no_members
unfolding parse_members print_members closes skip_space
no_members_lem first d zero rest h l = absurd (omega (arith, l))
no_members_lem first d (suc f) rest h l = refl

value_lem : (v : Json) → ReadsValue v
value_lem v = elim v as ReadsValue ReadsItems ReadsMembers [
  | null ↦ scalar_word null (inl refl)
  | bool true ↦ scalar_word (bool true) (inr (inl refl))
  | bool false ↦ scalar_word (bool false) (inr (inr refl))
  | number n ↦ scalar_number n
  | text s ↦ scalar_text s
  | array (vs → ih) ↦ array_lem vs ih
  | object (ms → ih) ↦ object_lem ms ih
  | no_items ↦ no_items_lem
  | item (w → ihw) (vs → ih) ↦ item_lem w vs ihw ih
  | no_members ↦ no_members_lem
  | member k (w → ihw) (ms → ih) ↦ member_lem k w ms ihw ih
]

-- What is printed of plain strings, of numbers that are read whole and of at most 10000 nested
-- brackets is read back as the same value.
pub parse_json-print : (v : Json) → IsPrintable max_depth v → parse_json (print v) ≡ ok v
unfolding parse_json at_end skip_space
parse_json-print v h =
    let whole = value_lem v max_depth (2 * length (print v) + 2) [] h tt (omega arith) in
    let whole' = rw (append-nil (print v)) at whole in rw whole'
