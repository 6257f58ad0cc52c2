-- ===== src/Hosts/Merge.antt =====
-- hosts.go: what `mergeHosts` keeps, and what it replaces.
use argonaut.Config.Check.{IsEndpoint}
use argonaut.Config.Schema.{Endpoint}
use argonaut.Hosts.Block.{validate_all-IsEndpoint}
use argonaut.Hosts.Strip.{line, strip-block}
use argonaut.Hosts.{
  begin_marker, localhost_line, managed_block, skip_breaks, strip_managed_hosts_block, validate_all,
  base_text, merge_hosts,
}
use argonaut.Text.Index.{index, Omits, Omits-left, index-stop}
use argonaut.Text.Trim.{
  trim_right, trim_right_split, trim_right-append-cut, trim_right-last, trim_right_idem, all_space,
  space_width, is_newline,
}
use argonaut.Prelude.{
  ℕ, ◌≡◌, inl, inr, refl, ◌∙◌, true, false, List, [], ◌∷◌, ◌++◌, append-nil, append_assoc, arith,
  ok, >>-eq-ok, Bool-cases, Bytes, All, if◌then◌else◌,
}

abbrev pub two_newlines : Bytes
two_newlines = b'\n' ∷ b'\n' ∷ []

-- What `mergeHosts` returns, and when.
merge_hosts-eq-ok :
    (existing : Bytes) (eps : List Endpoint) {out : Bytes}
    → merge_hosts existing eps ≡ ok out
    → (validate_all eps ≡ ok tt) × (out ≡ base_text existing ++ (two_newlines ++ managed_block eps))
unfolding merge_hosts
merge_hosts-eq-ok existing eps {out} h =
    let (v, e) =
      >>-eq-ok (validate_all eps) (ok (base_text existing ++ (two_newlines ++ managed_block eps)))
        h in
    (v, cc)

-- `merge_hosts` depends on the file only through `base_text`.
merge_hosts-base :
    (a b : Bytes) (eps : List Endpoint)
    → base_text a ≡ base_text b
    → merge_hosts a eps ≡ merge_hosts b eps
unfolding merge_hosts
merge_hosts-base a b eps h = rw h

abbrev pick : Bytes → Bytes
pick base = if all_space base then localhost_line else base

base_text-pick :
    (existing : Bytes)
    → base_text existing ≡ pick (trim_right is_newline (strip_managed_hosts_block existing))
unfolding base_text
base_text-pick existing = refl

-- The base text has nothing more to trim, is not blank, and omits the marker if the stripped file
-- does.
record IsBase (base : Bytes) : Type 0 where
  trimmed : trim_right is_newline base ≡ base
  not_blank : all_space base ≡ false
  omits : Omits begin_marker base

localhost-IsBase : IsBase localhost_line
unfolding trim_right all_space space_width index
localhost-IsBase = record { trimmed = refl; not_blank = refl; omits = refl }

trim-Omits : (s : Bytes) → Omits begin_marker s → Omits begin_marker (trim_right is_newline s)
trim-Omits s h =
    let (t, e, _) = trim_right_split is_newline s in
    Omits-left (trim_right is_newline s) t begin_marker (rw e at h)

base_text-IsBase :
    (existing : Bytes)
    → Omits begin_marker (strip_managed_hosts_block existing)
    → IsBase (base_text existing)
base_text-IsBase existing h = rw base_text-pick (elim (Bool-cases (all_space base)) [
  | inl e ↦ rw e localhost-IsBase
  | inr e ↦ rw e (record {
    trimmed = trim_right_idem is_newline (strip_managed_hosts_block existing);
    not_blank = e;
    omits = trim-Omits (strip_managed_hosts_block existing) h;
  })
])
  where
    base : Bytes
    base = trim_right is_newline (strip_managed_hosts_block existing)

newline-Omits : (s : Bytes) → Omits begin_marker s → Omits begin_marker (s ++ b'\n' ∷ [])
newline-Omits s h = index-stop b'\n' s [] begin_marker (omega arith) h ∙ unfold index in refl

-- A written file strips back to its base text and two newlines.
strip-written :
    (base : Bytes) (eps : List Endpoint)
    → IsBase base
    → All IsEndpoint eps
    → strip_managed_hosts_block (base ++ (two_newlines ++ managed_block eps)) ≡ base ++ two_newlines
unfolding skip_breaks
strip-written base eps b v =
    let cut = strip-block _ [] eps (line (base ++ b'\n' ∷ []) (newline-Omits base b.omits)) v in
    simp (append_assoc, append-nil) at cut

base_text-written :
    (base : Bytes) (eps : List Endpoint)
    → IsBase base
    → All IsEndpoint eps
    → base_text (base ++ (two_newlines ++ managed_block eps)) ≡ base
base_text-written base eps b v =
    base_text-pick _
    ∙ rw (
      strip-written base eps b v,
      trim_right-append-cut is_newline base two_newlines (refl, (refl, tt)),
      b.trimmed,
      b.not_blank,
    )

-- Writing the managed block again replaces it: after one merge, a merge with other endpoints gives
-- what it would have given on the file as it was at first. The condition is that the first file
-- held one managed block at most.
pub merge_hosts-merge_hosts :
    (existing : Bytes) (eps eps' : List Endpoint) {out : Bytes}
    → Omits begin_marker (strip_managed_hosts_block existing)
    → merge_hosts existing eps ≡ ok out
    → merge_hosts out eps' ≡ merge_hosts existing eps'
merge_hosts-merge_hosts existing eps eps' {out} h e =
    let (v, is) = merge_hosts-eq-ok existing eps e in
    merge_hosts-base out existing eps' (
      rw is (
        base_text-written (base_text existing) eps (base_text-IsBase existing h)
          (validate_all-IsEndpoint eps v)))

strip-none :
    (existing : Bytes) → Omits begin_marker existing → strip_managed_hosts_block existing ≡ existing
unfolding strip_managed_hosts_block
strip-none existing h = rw h

-- A file with no managed block, and not blank once its last newlines are cut, is kept byte for
-- byte up to its last byte that is not a newline, and an empty line and the block are put behind
-- that byte. The merge succeeds only if every endpoint is valid.
pub merge_hosts-keeps :
    (existing : Bytes) (eps : List Endpoint) {out : Bytes}
    → Omits begin_marker existing
    → all_space (trim_right is_newline existing) ≡ false
    → merge_hosts existing eps ≡ ok out
    → (body : Bytes) × (last : ℕ) × (cut : Bytes) × (existing ≡ (body ++ last ∷ []) ++ cut)
      × (is_newline last ≡ false)
      × All (λ c. is_newline c ≡ true) cut
      × (out ≡ (body ++ last ∷ []) ++ (two_newlines ++ managed_block eps))
      × All IsEndpoint eps
unfolding all_space
merge_hosts-keeps existing eps h text e = elim (trim_right-last is_newline existing) [
  | inl blank ↦ absurd (let text' = rw blank at text in cc)
  | inr (body, last, ends, outside) ↦
      let (cut, splits, newlines) = trim_right_split is_newline existing in
      let (v, is) = merge_hosts-eq-ok existing eps e in
      let base : base_text existing ≡ trim_right is_newline existing =
        base_text-pick existing ∙ rw (strip-none existing h, text) in
      (
        body,
        last,
        cut,
        rw ends at splits,
        outside,
        newlines,
        rw (base, ends) at is,
        validate_all-IsEndpoint eps v,
      )
]
