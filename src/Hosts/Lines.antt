-- ===== src/Hosts/Lines.antt =====
-- hosts.go: the lines of the managed block.

use argonaut.Config.Check.{IsEndpoint}
use argonaut.Config.Schema.{Endpoint}
use argonaut.Hosts.Block.{entry, entry-IsLineByte, IsLineByte, host_lines-cons}
use argonaut.Hosts.{begin_marker, end_marker, host_lines, managed_block}
use argonaut.Text.Split.{split, split-append}
use argonaut.Prelude.{
  ℕ, ◌+◌, ◌≡◌, ◌≢◌, refl, ap, ◌∙◌, List, [], ◌∷◌, ◌++◌, arith, Bytes, All, All-map, Lacks,
}

-- One line for each endpoint.
abbrev pub entries : ℕ → List Endpoint → List Bytes
entries i [] = []
entries i (ep ∷ eps) = entry ep i ∷ entries (i + 1) eps

split-host_lines :
    (i : ℕ) (eps : List Endpoint) (rest : Bytes)
    → All IsEndpoint eps
    → split b'\n' (host_lines i eps ++ rest) ≡ entries i eps ++ split b'\n' rest
split-host_lines i [] rest v = unfold host_lines in refl
split-host_lines i (ep ∷ eps) rest (v, vs) = rw (
  host_lines-cons,
  split-append b'\n' (entry ep i) (host_lines (i + 1) eps ++ rest) (one_line ep i v),
  split-host_lines (i + 1) eps rest vs,
)
  where
    one_line : (ep : Endpoint) (i : ℕ) → IsEndpoint ep → Lacks b'\n' (entry ep i)
    one_line ep i v = All-map IsLineByte (λ c. c ≢ b'\n') _ (λ c h. h.1) (entry-IsLineByte ep i v)

-- No endpoint can add a line of its own: the lines of the block are the begin marker, one line for
-- each endpoint, in order, and the end marker.
pub split-managed_block :
    (eps : List Endpoint)
    → All IsEndpoint eps
    → split b'\n' (managed_block eps) ≡ begin_marker ∷ (entries 0 eps ++ (end_marker ∷ [] ∷ []))
unfolding managed_block
split-managed_block eps v =
    split-append b'\n' begin_marker (host_lines 0 eps ++ (end_marker ++ b'\n' ∷ [])) (omega arith)
    ∙ ap (◌∷◌ begin_marker)
        (split-host_lines 0 eps (end_marker ++ b'\n' ∷ []) v ∙ unfold split in refl)
