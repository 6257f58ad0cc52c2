-- ===== src/Config/Decode/Extra.antt =====
-- config.go: `ParseConfig` and further top-level fields.
use argonaut.Config.Decode.{
  zero_config, Draft, field_of, store_field, store_members, has_key, decode_members, decode_config,
  parse_config,
}
use argonaut.Config.Schema.{max_config_bytes}
use argonaut.Json.Decode.{is_field, fold_name}
use argonaut.Json.Parse.{parse_json}
use argonaut.Json.Value.{Json, Members, object, members, find}
use argonaut.Prelude.{
  ◌≤◌, ◌≡◌, refl, sym, ap, ◌∙◌, false, List, [], ◌∷◌, none, some, Result, ok, err, ◌>>=◌, Bytes,
  codes, length, equal, equal_iff, ltb, arith, Bool-cases, Option-cases, inl, inr,
}

-- The members whose keys the schema names, in whatever case.
unfoldable pub schema_members : List (Bytes × Json) → List (Bytes × Json)
schema_members [] = []
schema_members ((k, v) ∷ ms) = elim (field_of k) [
  | none ↦ schema_members ms
  | some f ↦ (k, v) ∷ schema_members ms
]

bind-cong :
    {E A B : Type 0} (m : Result E A) (f g : A → Result E B)
    → ((a : A) → f a ≡ g a)
    → (m >>= f) ≡ (m >>= g)
bind-cong (ok a) f g h = h a
bind-cong (err e) f g h = refl

store_schema_members :
    (d : Draft) (ms : List (Bytes × Json))
    → store_members d (schema_members ms) ≡ store_members d ms
unfolding store_members schema_members store_field
store_schema_members d [] = refl
store_schema_members d ((k, v) ∷ ms) = elim (Option-cases (field_of k)) [
  | inl e ↦ rw (e, schema_members) (store_schema_members d ms)
  | inr (f, e) ↦
      let kept : schema_members ((k, v) ∷ ms) ≡ (k, v) ∷ schema_members ms =
        rw (e, schema_members) in
      ap (store_members d) kept
      ∙ bind-cong (store_field (field_of k) d v) _ _ (λ d'. store_schema_members d' ms)
]

endpoints_known : (k : Bytes) → field_of k ≡ none → equal k (codes "endpoints") ≡ false
unfolding field_of is_field fold_name equal
endpoints_known k h = elim (Bool-cases (equal k (codes "endpoints"))) [
  | inr e ↦ e
  | inl e ↦
      let same : k ≡ codes "endpoints" = (equal_iff k (codes "endpoints")).0 e in
      let h' = rw same at h in absurd cc
]

find-schema_members :
    (ms : List (Bytes × Json))
    → find (codes "endpoints") (schema_members ms) ≡ find (codes "endpoints") ms
unfolding find schema_members
find-schema_members [] = refl
find-schema_members ((k, v) ∷ ms) = elim (Option-cases (field_of k)) [
  | inr (f, e) ↦ rw (e, schema_members) (rw (find-schema_members ms))
  | inl e ↦ elim (Option-cases (find (codes "endpoints") ms)) [
    | inr (w, q) ↦ rw (e, schema_members, q) (find-schema_members ms ∙ q)
    | inl q ↦ rw (e, schema_members, q, endpoints_known k e) (find-schema_members ms ∙ q)
  ]
]

decode_schema_members :
    (ms : List (Bytes × Json)) → decode_members (schema_members ms) ≡ decode_members ms
unfolding decode_members has_key
decode_schema_members ms = rw (
  store_schema_members (record { config = zero_config; backing = [] }) ms,
  find-schema_members ms,
  has_key,
)

-- Two texts within the limit, each one JSON object, whose members under the schema's keys are the
-- same in the same order, are read as the same configuration, or are both refused: further
-- top-level fields, wherever they stand and whatever is in them, do not matter.
pub parse_config_extra :
    (raw raw' : Bytes) (ms ms' : Members)
    → length raw ≤ max_config_bytes
    → length raw' ≤ max_config_bytes
    → parse_json raw ≡ ok (object ms)
    → parse_json raw' ≡ ok (object ms')
    → schema_members (members ms) ≡ schema_members (members ms')
    → parse_config raw ≡ parse_config raw'
unfolding parse_config decode_config
parse_config_extra raw raw' ms ms' l l' p p' h =
    let a : ltb max_config_bytes (length raw) ≡ false = ground (arith, l) in
    let b : ltb max_config_bytes (length raw') ≡ false = ground (arith, l') in
    let same : decode_members (members ms) ≡ decode_members (members ms') =
      sym (decode_schema_members (members ms))
      ∙ ap decode_members h
      ∙ decode_schema_members (members ms') in
    rw (a, b, p, p', same)
