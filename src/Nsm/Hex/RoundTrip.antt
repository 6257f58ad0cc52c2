-- ===== src/Nsm/Hex/RoundTrip.antt =====
-- nsm.go: the decoding functions on hexadecimal prints.
use argonaut.Nsm.Hex.{
  encode, decode-encode, Byte, required_of, decode_required_hex, decode_optional_hex,
  decode_optional_legacy_hex,
}
use argonaut.Prelude.{
  ◌≡◌, ◌≢◌, refl, false, [], ◌∷◌, Option, none, some, ok, Bytes, codes, equal, All, arith,
}

-- One or more bytes.
pub record IsField (s : Bytes) : Type 0 where
  pub nonempty : s ≢ []
  pub bytes : All Byte s

abbrev pub IsOptionalField : Option Bytes → Type 0
IsOptionalField none = Unit
IsOptionalField (some s) = IsField s

-- `<hex|->`
abbrev pub show_optional : Option Bytes → Bytes
show_optional none = codes "-"
show_optional (some s) = encode s

pub encode-ne-nil : (s : Bytes) → s ≢ [] → encode s ≢ []
unfolding encode
encode-ne-nil [] h = absurd (h refl)
encode-ne-nil (c ∷ s) h = cc

encode-equal-nil : (s : Bytes) → s ≢ [] → equal (encode s) [] ≡ false
unfolding encode equal
encode-equal-nil [] h = absurd (h refl)
encode-equal-nil (c ∷ s) h = refl

encode-equal-dash : (s : Bytes) → s ≢ [] → equal (encode s) (codes "-") ≡ false
unfolding encode equal
encode-equal-dash [] h = absurd (h refl)
encode-equal-dash (c ∷ s) h = ground arith

required_of-ok : (s missing : Bytes) → s ≢ [] → required_of missing (some s) ≡ ok s
unfolding required_of
required_of-ok [] missing h = absurd (h refl)
required_of-ok (c ∷ s) missing h = refl

pub decode_required-encode :
    (s missing : Bytes) → IsField s → decode_required_hex (encode s) missing ≡ ok s
unfolding decode_required_hex
decode_required-encode s missing f =
    rw (encode-equal-nil s f.nonempty, decode-encode s f.bytes)
      (required_of-ok s missing f.nonempty)

pub decode_optional-encode : (s : Bytes) → IsField s → decode_optional_hex (encode s) ≡ ok (some s)
unfolding decode_optional_hex
decode_optional-encode s f = rw (encode-equal-nil s f.nonempty, decode-encode s f.bytes)

pub decode_legacy-show :
    (o : Option Bytes) → IsOptionalField o → decode_optional_legacy_hex (show_optional o) ≡ ok o
unfolding decode_optional_legacy_hex
decode_legacy-show none f = unfold equal in refl
decode_legacy-show (some s) f = rw (encode-equal-dash s f.nonempty) (decode_optional-encode s f)
