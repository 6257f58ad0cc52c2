-- ===== src/Config/Hostname.antt =====
-- config.go: `validateHostname`.
--
-- The source walks over runes and accepts ASCII runes only, so the walk stops where a walk over
-- the bytes stops: at the first byte of the first rune that is not accepted. A rune is its encoding.
use argonaut.Text.Utf8.{rune_width, rune_error}
use argonaut.Text.Split.{
  split, join, join-split, split-Lacks, split-join, split-All, split-ne-nil, join-All,
}
use argonaut.Prelude.{
  ℕ, ◌≤◌, ◌≡◌, ◌≢◌, ◌↔◌, ◌⊎◌, inl, inr, refl, sym, Bool, true, ◌||◌, List, [], ◌∷◌, arith, ltb,
  ◌==◌, within, if◌then◌else◌, Bool-cases, Bytes, Lacks, All, length, take, Result, ok, err, ◌>>◌,
  >>=-eq-ok,
}

pub data HostnameError : Type 0 where
  bad_character : (rune : Bytes) → HostnameError
  empty_label label_too_long : HostnameError

unfoldable pub is_host_byte : ℕ → Bool
is_host_byte c =
    within b'a' b'z' c
    || within b'A' b'Z' c
    || within b'0' b'9' c
    || c == b'.'
    || c == b'-'
    || c == b'_'

-- the rune that a `range` over the text yields first: U+FFFD where the text is not UTF-8
abbrev first_rune : Bytes → Bytes
first_rune s = if rune_width s == 0 then rune_error else take (rune_width s) s

-- the loop over the runes
check_bytes : Bytes → Result HostnameError (Unit {0})
unfolding is_host_byte
check_bytes [] = ok tt
check_bytes (c ∷ s) =
    let rest = check_bytes s in
    if is_host_byte c then rest else err (bad_character (first_rune (c ∷ s)))

check_label : Bytes → Result HostnameError (Unit {0})
check_label [] = err empty_label
check_label (c ∷ s) = if ltb 63 (length (c ∷ s)) then err label_too_long else ok tt

-- the loop over the labels
check_labels : List Bytes → Result HostnameError (Unit {0})
unfolding check_label
check_labels [] = ok tt
check_labels (l ∷ ls) = do check_label l; check_labels ls

unfoldable pub validate_hostname : Bytes → Result HostnameError (Unit {0})
unfolding check_bytes check_labels split
validate_hostname host = do check_bytes host; check_labels (split b'.' host)

-- A letter, a digit, `-` or `_`.
abbrev pub IsLabelByte : ℕ → Type 0
IsLabelByte c =
    (b'a' ≤ c) × (c ≤ b'z')
    ⊎ (b'A' ≤ c) × (c ≤ b'Z')
    ⊎ (b'0' ≤ c) × (c ≤ b'9')
    ⊎ (c ≡ b'-')
    ⊎ (c ≡ b'_')

-- One to 63 label bytes.
pub record IsLabel (l : Bytes) : Type 0 where
  pub bytes : All IsLabelByte l
  pub nonempty : l ≢ []
  pub short : length l ≤ 63

-- One or more labels with dots between them.
pub record IsHostname (host : Bytes) : Type 0 where
  pub labels : List Bytes
  pub spelled : host ≡ join b'.' labels
  pub some_label : labels ≢ []
  pub well_formed : All IsLabel labels

abbrev pub IsHostByte : ℕ → Type 0
IsHostByte c = is_host_byte c ≡ true

check_bytes_sound : (s : Bytes) → check_bytes s ≡ ok tt → All IsHostByte s
unfolding check_bytes
check_bytes_sound [] h = tt
check_bytes_sound (c ∷ s) h = elim (Bool-cases (is_host_byte c)) [
  | inl e ↦ (e, check_bytes_sound s (rw e at h))
  | inr e ↦ let h' = rw e at h in cc
]

check_bytes_complete : (s : Bytes) → All IsHostByte s → check_bytes s ≡ ok tt
unfolding check_bytes
check_bytes_complete [] h = refl
check_bytes_complete (c ∷ s) (hc, hs) = rw hc (check_bytes_complete s hs)

IsHostByte-IsLabelByte : (c : ℕ) → IsHostByte c → c ≢ b'.' → IsLabelByte c
unfolding is_host_byte
IsHostByte-IsLabelByte c h d = ground arith

IsLabelByte-IsHostByte : (c : ℕ) → IsLabelByte c → (IsHostByte c) × (c ≢ b'.')
unfolding is_host_byte
IsLabelByte-IsHostByte c h = ground arith

label_bytes : (l : Bytes) → All IsHostByte l → Lacks b'.' l → All IsLabelByte l
label_bytes [] h d = tt
label_bytes (c ∷ l) (hc, hl) (dc, dl) = (IsHostByte-IsLabelByte c hc dc, label_bytes l hl dl)

label_plain : (l : Bytes) → All IsLabelByte l → All IsHostByte l × Lacks b'.' l
label_plain [] h = (tt, tt)
label_plain (c ∷ l) (hc, hl) =
    let (host_byte, no_dot) = IsLabelByte-IsHostByte c hc in
    let (hs, ds) = label_plain l hl in ((host_byte, hs), (no_dot, ds))

labels_plain : (ls : List Bytes) → All IsLabel ls → All (All IsHostByte) ls × All (Lacks b'.') ls
labels_plain [] h = (tt, tt)
labels_plain (l ∷ ls) (hl, hls) =
    let (bytes, dots) = label_plain l hl.bytes in
    let (all_bytes, all_dots) = labels_plain ls hls in ((bytes, all_bytes), (dots, all_dots))

check_labels_sound :
    (ls : List Bytes)
    → check_labels ls ≡ ok tt
    → All (All IsHostByte) ls
    → All (Lacks b'.') ls
    → All IsLabel ls
unfolding check_labels
check_labels_sound [] h _ _ = tt
check_labels_sound ([] ∷ ls) h _ _ = let h' = h in cc
check_labels_sound ((c ∷ l) ∷ ls) h (hl, hls) (dl, dls) =
    elim (Bool-cases (ltb 63 (length (c ∷ l)))) [
      | inl e ↦ let h' = rw e at h in cc
      | inr e ↦ (
        record { bytes = label_bytes (c ∷ l) hl dl; nonempty = cc; short = ground arith },
        check_labels_sound ls (rw e at h) hls dls,
      )
    ]

check_labels_complete : (ls : List Bytes) → All IsLabel ls → check_labels ls ≡ ok tt
unfolding check_labels
check_labels_complete [] h = refl
check_labels_complete ([] ∷ ls) (h, _) = absurd (h.nonempty refl)
check_labels_complete ((c ∷ l) ∷ ls) (h, hs) = ground (arith, check_labels_complete ls hs, h.short)

validate_hostname_sound : (host : Bytes) → validate_hostname host ≡ ok tt → IsHostname host
unfolding validate_hostname
validate_hostname_sound host h =
    let (_, scanned, labelled) =
      >>=-eq-ok (check_bytes host) (λ _. check_labels (split b'.' host)) h in
    record {
      labels = split b'.' host;
      spelled = sym (join-split b'.' host);
      some_label = split-ne-nil b'.' host;
      well_formed =
          check_labels_sound (split b'.' host) labelled
            (split-All IsHostByte b'.' host (check_bytes_sound host scanned))
            (split-Lacks b'.' host);
    }

validate_hostname_complete : (host : Bytes) → IsHostname host → validate_hostname host ≡ ok tt
unfolding validate_hostname
validate_hostname_complete host h =
    let (bytes, dots) = labels_plain h.labels h.well_formed in
    let clean = check_bytes_complete _ (join-All IsHostByte b'.' h.labels refl bytes) in
    rw (h.spelled, clean, split-join b'.' h.labels h.some_label dots)
      (check_labels_complete h.labels h.well_formed)

-- `validateHostname` accepts exactly the host names: one or more labels with dots between them,
-- each of one to 63 letters, digits, `-` and `_`.
pub validate_hostname_iff : (host : Bytes) → (validate_hostname host ≡ ok tt) ↔ IsHostname host
validate_hostname_iff host = (validate_hostname_sound host, validate_hostname_complete host)

-- An accepted host name has only letters, digits, `.`, `-` and `_`.
pub validate_hostname-IsHostByte :
    (host : Bytes) → validate_hostname host ≡ ok tt → All IsHostByte host
unfolding validate_hostname
validate_hostname-IsHostByte host h =
    let (_, scanned, _) = >>=-eq-ok (check_bytes host) (λ _. check_labels (split b'.' host)) h in
    check_bytes_sound host scanned
