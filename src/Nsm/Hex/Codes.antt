-- ===== src/Nsm/Hex/Codes.antt =====
-- nsm.go: the error codes of the decoding functions.
use argonaut.Nsm.Hex.{
  decode, required_of, optional_of, decode_required_hex, decode_optional_hex,
  decode_optional_legacy_hex,
}
use argonaut.Nsm.Token.{IsToken}
use argonaut.Prelude.{
  inl, inr, [], ◌∷◌, Option, none, some, Result, ok, err, Bytes, codes, equal, Bool-cases, arith,
}

-- The errors of a result are codes.
abbrev pub FailsWithCodes : {A : Type 0} → Result Bytes A → Type 0
FailsWithCodes (ok a) = Unit
FailsWithCodes (err code) = IsToken code

invalid_hex : IsToken (codes "invalid_hex")
invalid_hex = record { nonempty = cc; bytes = omega arith }

required_of-codes :
    (missing : Bytes) (o : Option Bytes) → IsToken missing → FailsWithCodes (required_of missing o)
unfolding required_of
required_of-codes missing none t = invalid_hex
required_of-codes missing (some []) t = t
required_of-codes missing (some (c ∷ s)) t = tt

pub required-codes :
    (s missing : Bytes) → IsToken missing → FailsWithCodes (decode_required_hex s missing)
unfolding decode_required_hex
required-codes s missing t = elim (Bool-cases (equal s [])) [
  | inl e ↦ rw e t
  | inr e ↦ rw e (required_of-codes missing (decode s) t)
]

optional_of-codes : (o : Option Bytes) → FailsWithCodes (optional_of o)
unfolding optional_of
optional_of-codes none = invalid_hex
optional_of-codes (some s) = tt

pub optional-codes : (s : Bytes) → FailsWithCodes (decode_optional_hex s)
unfolding decode_optional_hex
optional-codes s = elim (Bool-cases (equal s [])) [
  | inl e ↦ rw e tt
  | inr e ↦ rw e (optional_of-codes (decode s))
]

pub legacy-codes : (s : Bytes) → FailsWithCodes (decode_optional_legacy_hex s)
unfolding decode_optional_legacy_hex
legacy-codes s = elim (Bool-cases (equal s (codes "-"))) [
  | inl e ↦ rw e tt
  | inr e ↦ rw e (optional-codes s)
]
