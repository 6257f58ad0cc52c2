-- ===== src/Hosts/Strip.antt =====
-- hosts.go: `stripManagedHostsBlock` on a file with a managed block.
use argonaut.Config.Check.{IsEndpoint}
use argonaut.Config.Schema.{Endpoint}
use argonaut.Hosts.Block.{entry, entry-IsLineByte, IsLineByte, host_lines-cons, length-host_lines}
use argonaut.Hosts.{
  begin_marker, end_marker, host_lines, managed_block, skip_breaks, strip_managed_hosts_block,
}
use argonaut.Text.Index.{index, Omits, Omits-Lacks, index-stop, index-append_self}
use argonaut.Prelude.{
  ℕ, ◌+◌, ◌≡◌, ◌≢◌, refl, sym, ap, ◌∙◌, List, [], ◌∷◌, ◌++◌, append_assoc, arith, some, Bytes,
  codes, All, All-map, length, length-append, drop, take-append, drop-append,
}

entry-Omits : (ep : Endpoint) (i : ℕ) → IsEndpoint ep → Omits end_marker (entry ep i)
entry-Omits ep i v =
    Omits-Lacks b'#' (codes " argonaut end") (entry ep i)
      (All-map IsLineByte (λ c. c ≢ b'#') _ (λ c h. h.0) (entry-IsLineByte ep i v))

-- The end marker is found behind the lines.
index-host_lines :
    (i : ℕ) (eps : List Endpoint) (rest : Bytes)
    → All IsEndpoint eps
    → index (host_lines i eps ++ (end_marker ++ rest)) end_marker ≡ some (length (host_lines i eps))
index-host_lines i [] rest v = unfold host_lines in index-append_self end_marker rest
index-host_lines i (ep ∷ eps) rest (v, vs) =
    rw
      (
        host_lines-cons,
        index-stop b'\n' (entry ep i) (host_lines (i + 1) eps ++ (end_marker ++ rest)) end_marker
            (omega arith) (entry-Omits ep i v),
        index-host_lines (i + 1) eps rest vs,
      )
      (ap some (sym (length-host_lines i ep eps)))

begin-Omits : Omits end_marker begin_marker
unfolding index
begin-Omits = refl

block-append :
    (eps : List Endpoint) (post : Bytes)
    → managed_block eps ++ post
      ≡ begin_marker ++ b'\n' ∷ (host_lines 0 eps ++ (end_marker ++ b'\n' ∷ post))
unfolding managed_block
block-append eps post = simp append_assoc

-- what stands in front of the end marker
opening : List Endpoint → Bytes
opening eps = begin_marker ++ b'\n' ∷ host_lines 0 eps

opening-append :
    (eps : List Endpoint) (post : Bytes)
    → managed_block eps ++ post ≡ opening eps ++ (end_marker ++ b'\n' ∷ post)
unfolding managed_block opening
opening-append eps post = simp append_assoc

index-block :
    (eps : List Endpoint) (post : Bytes)
    → All IsEndpoint eps
    → index (managed_block eps ++ post) end_marker ≡ some (length (opening eps))
unfolding opening
index-block eps post v =
    ap (λ t. index t end_marker) (block-append eps post)
    ∙ index-stop b'\n' begin_marker (host_lines 0 eps ++ (end_marker ++ b'\n' ∷ post)) end_marker
        (omega arith) begin-Omits
    ∙ rw (index-host_lines 0 eps (b'\n' ∷ post) v) (ap some (omega arith))

-- A place where a search for the begin marker stops at once: the start of the text, or the start
-- of a line with no begin marker before it.
pub data LineStart : Bytes → Type 0 where
  start : LineStart []
  line : (p : Bytes) → Omits begin_marker p → LineStart (p ++ b'\n' ∷ [])

index-LineStart :
    {pre : Bytes} (rest : Bytes)
    → LineStart pre
    → index (pre ++ (begin_marker ++ rest)) begin_marker ≡ some (length pre)
index-LineStart rest start = index-append_self begin_marker rest
index-LineStart rest (line p o) =
    let found = index-stop b'\n' p (begin_marker ++ rest) begin_marker (omega arith) o in
    rw append_assoc (
      found
      ∙ rw (index-append_self begin_marker rest)
          (ap some (omega (arith, length-append p (b'\n' ∷ [])))))

module _ (pre post : Bytes) (eps : List Endpoint) where
  text : Bytes
  text = pre ++ (managed_block eps ++ post)

  found_begin : LineStart pre → index text begin_marker ≡ some (length pre)
  unfolding text
  found_begin at_line =
      ap (λ t. index (pre ++ t) begin_marker) (block-append eps post) ∙ index-LineStart _ at_line

  found_end :
      All IsEndpoint eps → index (drop (length pre) text) end_marker ≡ some (length (opening eps))
  unfolding text
  found_end v = rw (drop-append pre) (index-block eps post v)

  behind_block : drop (length pre + length (opening eps) + length end_marker) text ≡ b'\n' ∷ post
  unfolding text
  behind_block =
      let front = pre ++ (opening eps ++ end_marker) in
      let size : length pre + length (opening eps) + length end_marker ≡ length front = omega (
        arith,
        length-append pre (opening eps ++ end_marker),
        length-append (opening eps) end_marker,
      ) in
      let same : pre ++ (managed_block eps ++ post) ≡ front ++ b'\n' ∷ post =
        ap (λ t. pre ++ t) (opening-append eps post) ∙ simp append_assoc in
      rw (size, same) (drop-append front (b'\n' ∷ post))

pub strip-block :
    (pre post : Bytes) (eps : List Endpoint)
    → LineStart pre
    → All IsEndpoint eps
    → strip_managed_hosts_block (pre ++ (managed_block eps ++ post)) ≡ pre ++ skip_breaks post
unfolding strip_managed_hosts_block text
strip-block pre post eps at_line v =
    rw
      (
        found_begin pre post eps at_line,
        found_end pre post eps v,
        behind_block pre post eps,
        take-append pre,
      )
      (unfold skip_breaks in refl)
