-- ===== src/Hosts.antt =====
-- hosts.go: the managed block of the hosts file.
pub mod Block
pub mod Strip
pub mod Merge
pub mod Lines
pub mod File
use argonaut.Config.Check.{EndpointError, validate_endpoint, endpoint_local_ip}
use argonaut.Config.Schema.{Endpoint}
use argonaut.Text.Index.{index}
use argonaut.Text.Trim.{trim_right, all_space, is_newline, is_break}
use argonaut.Prelude.{
  ℕ, ◌+◌, Bool, true, false, List, [], ◌∷◌, ◌++◌, Option, none, some, Result, ok, err, ◌>>◌, Bytes,
  codes, length, take, drop, if◌then◌else◌,
}

abbrev pub hosts_path : Bytes
hosts_path = codes "/etc/hosts"

abbrev pub begin_marker : Bytes
begin_marker = codes "# argonaut begin"

abbrev pub end_marker : Bytes
end_marker = codes "# argonaut end"

abbrev pub localhost_line : Bytes
localhost_line = codes "127.0.0.1   localhost"

-- the loop that moves `end` over line breaks
unfoldable pub skip_breaks : Bytes → Bytes
skip_breaks [] = []
skip_breaks (c ∷ s) = let rest = skip_breaks s in if is_break c then rest else c ∷ s

-- what is done once the begin marker is found at `begin`
strip_from : Bytes → ℕ → Option ℕ → Bytes
strip_from existing begin none = trim_right is_newline (take begin existing) ++ b'\n' ∷ []
strip_from existing begin (some end_rel) =
    take begin existing ++ skip_breaks (drop (begin + end_rel + length end_marker) existing)

strip_at : Bytes → Option ℕ → Bytes
unfolding strip_from
strip_at existing none = existing
strip_at existing (some begin) = strip_from existing begin (index (drop begin existing) end_marker)

unfoldable pub strip_managed_hosts_block : Bytes → Bytes
unfolding strip_at
strip_managed_hosts_block existing = strip_at existing (index existing begin_marker)

-- the loop that validates the endpoints
unfoldable pub validate_all : List Endpoint → Result EndpointError (Unit {0})
validate_all [] = ok tt
validate_all (ep ∷ eps) = do validate_endpoint ep; validate_all eps

-- `"%s   %s\n"`
abbrev pub host_line : Endpoint → ℕ → Bytes
host_line ep i = endpoint_local_ip ep i ++ (codes "   " ++ (ep.host ++ b'\n' ∷ []))

unfoldable pub host_lines : ℕ → List Endpoint → Bytes
host_lines i [] = []
host_lines i (ep ∷ eps) = host_line ep i ++ host_lines (i + 1) eps

-- the text of `block`
unfoldable pub managed_block : List Endpoint → Bytes
managed_block eps = begin_marker ++ b'\n' ∷ (host_lines 0 eps ++ (end_marker ++ b'\n' ∷ []))

-- `base` as it is written out
unfoldable pub base_text : Bytes → Bytes
base_text existing =
    let base = trim_right is_newline (strip_managed_hosts_block existing) in
    if all_space base then localhost_line else base

unfoldable pub merge_hosts : Bytes → List Endpoint → Result EndpointError Bytes
merge_hosts existing eps = do
  validate_all eps
  ok (base_text existing ++ b'\n' ∷ b'\n' ∷ managed_block eps)

unfoldable pub render_hosts : List Endpoint → Result EndpointError Bytes
render_hosts eps = merge_hosts (localhost_line ++ b'\n' ∷ []) eps
