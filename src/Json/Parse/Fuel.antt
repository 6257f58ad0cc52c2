-- ===== src/Json/Parse/Fuel.antt =====
-- The fuel of `parse_json`.
use argonaut.Json.Numbers.{NumberState, begin, scan_number, number_next, complete, stop, add_digit}
use argonaut.Json.Parse.{
  syntax, out_of_fuel, Parsed, skip_space, Lead, object_lead, array_lead, text_lead, number_lead,
  no_lead, word_lead, lead, word, found, quoted, expect, separator, key, closes, deeper, by_lead,
  value_at, parse_value, parse_items, parse_members, at_end, parse_json, max_depth,
}
use argonaut.Json.Strings.{StringState, plain, scan_string, ends_string, string_next, add_byte}
use argonaut.Json.Value.{Json, Items, Members, array, object}
use argonaut.Prelude.{
  ℕ, zero, suc, ◌+◌, ◌*◌, ◌≤◌, ◌<◌, ◌≡◌, ◌≢◌, inl, inr, Bool, true, false, [], ◌∷◌, Option, none,
  some, ok, err, ◌>>=◌, Bytes, length, drop, take, equal, ◌==◌, arith, if◌then◌else◌, Bool-cases,
  Option-cases,
}

-- Not out of fuel, and fewer than `n` bytes are left where a value was read.
abbrev Within : {A : Type 0} → ℕ → Parsed A → Type 0
Within n (ok (a, rest)) = length rest < n
Within n (err syntax) = Unit
Within n (err out_of_fuel) = ⊥

Within-bind :
    {A B : Type 0} (m n : ℕ) (r : Parsed A) (next : A × Bytes → Parsed B)
    → Within m r
    → ((a : A) (rest : Bytes) → length rest < m → Within n (next (a, rest)))
    → Within n (r >>= next)
Within-bind m n (ok (a, rest)) next h k = k a rest h
Within-bind m n (err syntax) next h k = tt
Within-bind m n (err out_of_fuel) next h k = h

Within-le : {A : Type 0} (m n : ℕ) (r : Parsed A) → m ≤ n → Within m r → Within n r
Within-le m n (ok (a, rest)) h k = omega (arith, h, k)
Within-le m n (err syntax) h k = tt
Within-le m n (err out_of_fuel) h k = k

skip_space-length : (s : Bytes) → length (skip_space s) ≤ length s
unfolding skip_space
skip_space-length [] = omega arith
skip_space-length (c ∷ s) = ground (arith, skip_space-length s)

-- Of a scanner's result: what is left.
abbrev Leaves : ℕ → Option (Bytes × Bytes) → Type 0
Leaves n none = Unit
Leaves n (some (raw, rest)) = length rest < n

found-Within : (n : ℕ) (o : Option (Bytes × Bytes)) → Leaves n o → Within n (found o)
unfolding found
found-Within n none h = tt
found-Within n (some r) h = h

add_byte-Leaves :
    (c n : ℕ) (o : Option (Bytes × Bytes)) → Leaves n o → Leaves (suc n) (add_byte c o)
add_byte-Leaves c n none h = tt
add_byte-Leaves c n (some r) h = omega (arith, h)

scan_string-Leaves : (st : StringState) (s : Bytes) → Leaves (suc (length s)) (scan_string st s)
unfolding scan_string
scan_string-Leaves st [] = tt
scan_string-Leaves st (c ∷ s) = elim (Bool-cases (ends_string st c)) [
  | inl e ↦ rw (e, scan_string) (omega arith)
  | inr e ↦ elim (Option-cases (string_next st c)) [
    | inl n ↦ rw (e, scan_string, n) tt
    | inr (st', n) ↦
        rw (e, scan_string, n) (add_byte-Leaves c (suc (length s)) _ (scan_string-Leaves st' s))
  ]
]

stop-Leaves : (st : NumberState) (s : Bytes) → Leaves (suc (length s)) (stop st s)
stop-Leaves st s = elim (Bool-cases (complete st)) [ inl e ↦ rw e (omega arith) | inr e ↦ rw e tt ]

scan_number-Leaves : (st : NumberState) (s : Bytes) → Leaves (suc (length s)) (scan_number st s)
unfolding scan_number
scan_number-Leaves st [] = stop-Leaves st []
scan_number-Leaves st (c ∷ s) = elim (Option-cases (number_next st c)) [
  | inl e ↦ rw (e, scan_number) (stop-Leaves st (c ∷ s))
  | inr (st', e) ↦
      rw (e, scan_number) (add_byte-Leaves c (suc (length s)) _ (scan_number-Leaves st' s))
]

-- A number has at least one byte.
number-Leaves : (s : Bytes) → Leaves (length s) (scan_number begin s)
unfolding scan_number complete
number-Leaves [] = tt
number-Leaves (c ∷ s) = elim (Option-cases (number_next begin c)) [
  | inl e ↦ rw (e, scan_number) tt
  | inr (st', e) ↦ rw (e, scan_number) (shorter (scan_number st' s) (scan_number-Leaves st' s))
]
  where
    shorter :
        (o : Option (Bytes × Bytes))
        → Leaves (suc (length s)) o
        → Leaves (suc (length s)) (add_digit c o)
    shorter none h = tt
    shorter (some r) h = h

quoted-Within : (s : Bytes) → Within (suc (length s)) (quoted s)
unfolding quoted
quoted-Within s =
    Within-bind (suc (length s)) (suc (length s)) (found (scan_string plain s)) _
      (found-Within (suc (length s)) (scan_string plain s) (scan_string-Leaves plain s))
      (λ raw rest h. h)

expect-Within : (b : ℕ) (s : Bytes) → Within (length s) (expect b s)
unfolding expect
expect-Within b s = first (skip_space s) (skip_space-length s)
  where
    first :
        (t : Bytes)
        → length t ≤ length s
        → Within
            (length s)
            (elim t [ [] ↦ err syntax | c ∷ rest ↦ if c == b then ok (tt, rest) else err syntax ])
    first [] h = tt
    first (c ∷ rest) h = elim (Bool-cases (c == b)) [
      | inl e ↦ rw e (omega (arith, h))
      | inr e ↦ rw e tt
    ]

separator-Within : (first : Bool) (s : Bytes) → Within (suc (length s)) (separator first s)
unfolding separator
separator-Within true s = omega arith
separator-Within false s =
    Within-le (length s) (suc (length s)) (expect b',' s) (omega arith) (expect-Within b',' s)

key-Within : (s : Bytes) → Within (length s) (key s)
unfolding key
key-Within s =
    Within-bind (length s) (length s) (expect b'"' s) _ (expect-Within b'"' s) (λ a rest h.
      Within-le (suc (length rest)) (length s) (quoted rest) (omega (arith, h))
        (quoted-Within rest))

closes-lt : (b : ℕ) (s rest : Bytes) → closes b s ≡ some rest → length rest < length s
unfolding closes
closes-lt b s rest h = first (skip_space s) (skip_space-length s) h
  where
    first :
        (t : Bytes)
        → length t ≤ length s
        → elim t [ [] ↦ none | c ∷ r ↦ if c == b then some r else none ] ≡ some rest
        → length rest < length s
    first [] k e = cc
    first (c ∷ r) k e = ground (arith, k, e)

word-Within : (w : Bytes) (v : Json) (s : Bytes) → Within (suc (length s)) (word w v s)
unfolding word
word-Within w v s = elim (Bool-cases (equal (take (length w) s) w)) [
  | inl e ↦ rw (e, word) (drop-lt (length w) s)
  | inr e ↦ rw (e, word) tt
]
  where
    drop-lt : (n : ℕ) (s : Bytes) → length (drop n s) < suc (length s)
    drop-lt zero s = omega arith
    drop-lt (suc n) [] = omega arith
    drop-lt (suc n) (c ∷ s) = omega (arith, drop-lt n s)

module _ (parse_items : ℕ → Bool → Bytes → Parsed Items)
    (parse_members : ℕ → Bool → Bytes → Parsed Members) (rest : Bytes)
    (items_ok : (d : ℕ) → Within (length rest) (parse_items d true rest))
    (members_ok : (d : ℕ) → Within (length rest) (parse_members d true rest)) where
  deeper-Within :
      {A : Type 0} (close : A → Json) (inside : ℕ → Parsed A) (depth : ℕ)
      → ((d : ℕ) → Within (length rest) (inside d))
      → Within (suc (length rest)) (deeper close inside depth)
  unfolding deeper
  deeper-Within close inside zero h = tt
  deeper-Within close inside (suc d) h =
      Within-bind (length rest) (suc (length rest)) (inside d) _ (h d) (λ a r k. omega (arith, k))

  by_lead-Within :
      (depth : ℕ) (l : Lead) (c : ℕ)
      → Within (suc (length rest)) (by_lead parse_items parse_members depth l c rest)
  unfolding by_lead
  by_lead-Within depth no_lead c = tt
  by_lead-Within depth (word_lead w v) c = word-Within w v rest
  by_lead-Within depth number_lead c =
      Within-bind (suc (length rest)) (suc (length rest)) (found (scan_number begin (c ∷ rest))) _
        (found-Within _ (scan_number begin (c ∷ rest)) (number-Leaves (c ∷ rest))) (λ a r h. h)
  by_lead-Within depth text_lead c =
      Within-bind (suc (length rest)) (suc (length rest)) (quoted rest) _ (quoted-Within rest)
        (λ a r h. h)
  by_lead-Within depth array_lead c =
      deeper-Within array (λ d. parse_items d true rest) depth items_ok
  by_lead-Within depth object_lead c =
      deeper-Within object (λ d. parse_members d true rest) depth members_ok

value_at-Within :
    (parse_items : ℕ → Bool → Bytes → Parsed Items)
    (parse_members : ℕ → Bool → Bytes → Parsed Members) (depth n : ℕ) (t : Bytes)
    → length t ≤ n
    → ((d : ℕ) (r : Bytes) → length r < n → Within (length r) (parse_items d true r))
    → ((d : ℕ) (r : Bytes) → length r < n → Within (length r) (parse_members d true r))
    → Within n (value_at parse_items parse_members depth t)
unfolding value_at
value_at-Within parse_items parse_members depth n [] h items_ok members_ok = tt
value_at-Within parse_items parse_members depth n (c ∷ rest) h items_ok members_ok =
    Within-le (suc (length rest)) n _ h (
      by_lead-Within parse_items parse_members rest (λ d. items_ok d rest (omega (arith, h)))
        (λ d. members_ok d rest (omega (arith, h))) depth (lead c) c)

mutual
  unfolding parse_value

  value-Within :
      (f depth : ℕ) (s : Bytes) → 2 * length s < f → Within (length s) (parse_value f depth s)
  value-Within zero depth s h = absurd (omega arith)
  value-Within (suc f) depth s h =
      value_at-Within (parse_items f) (parse_members f) depth (length s) (skip_space s)
        (skip_space-length s) (λ d r k. items-Within f d true r (omega (arith, h, k)))
        (λ d r k. members-Within f d true r (omega (arith, h, k)))

  items-Within :
      (f depth : ℕ) (first : Bool) (s : Bytes)
      → suc (2 * length s) < f
      → Within (length s) (parse_items f depth first s)
  items-Within zero depth first s h = absurd (omega arith)
  items-Within (suc f) depth first s h = elim (Option-cases (closes b']' s)) [
    | inr (rest, e) ↦ rw (e, parse_items) (closes-lt b']' s rest e)
    | inl e ↦
        rw (e, parse_items)
          (Within-bind (suc (length s)) (length s) (separator first s) _ (separator-Within first s)
            (λ _ t ht.
              Within-bind (length t) (length s) (parse_value f depth t) _
                (value-Within f depth t (omega (arith, h, ht)))
                (λ v u hu.
                  Within-bind (length u) (length s) (parse_items f depth false u) _
                    (items-Within f depth false u (omega (arith, h, ht, hu)))
                    (λ vs r hr. omega (arith, ht, hu, hr)))))
  ]

  members-Within :
      (f depth : ℕ) (first : Bool) (s : Bytes)
      → suc (2 * length s) < f
      → Within (length s) (parse_members f depth first s)
  members-Within zero depth first s h = absurd (omega arith)
  members-Within (suc f) depth first s h = elim (Option-cases (closes b'}' s)) [
    | inr (rest, e) ↦ rw (e, parse_members) (closes-lt b'}' s rest e)
    | inl e ↦
        rw (e, parse_members)
          (Within-bind (suc (length s)) (length s) (separator first s) _ (separator-Within first s)
            (λ _ t ht. Within-bind (length t) (length s) (key t) _ (key-Within t) (λ k u hu.
              Within-bind (length u) (length s) (expect b':' u) _ (expect-Within b':' u) (λ _ w hw.
                Within-bind (length w) (length s) (parse_value f depth w) _
                  (value-Within f depth w (omega (arith, h, ht, hu, hw)))
                  (λ v x hx.
                    Within-bind (length x) (length s) (parse_members f depth false x) _
                      (members-Within f depth false x (omega (arith, h, ht, hu, hw, hx)))
                      (λ ms r hr. omega (arith, ht, hu, hw, hx, hr)))))))
  ]

-- Every text is a value or a syntax error: the model never gives up where the program would go on.
pub parse_json-ne-out_of_fuel : (s : Bytes) → parse_json s ≢ err out_of_fuel
unfolding parse_json at_end
parse_json-ne-out_of_fuel s h =
    ends (parse_value (2 * length s + 2) max_depth s)
      (value-Within (2 * length s + 2) max_depth s (omega arith)) h
  where
    ends : (r : Parsed Json) → Within (length s) r → (r >>= at_end) ≡ err out_of_fuel → ⊥
    ends (ok (v, rest)) w e = last (skip_space rest) e
      where
        last : (t : Bytes) → elim t [ [] ↦ ok v | c ∷ u ↦ err syntax ] ≡ err out_of_fuel → ⊥
        last [] e = cc
        last (c ∷ u) e = cc
    ends (err syntax) w e = cc
    ends (err out_of_fuel) w e = w
