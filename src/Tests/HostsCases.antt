-- ===== src/Tests/HostsCases.antt =====
-- hosts.go at concrete inputs; most are those of main_test.go.
use argonaut.Config.Check.{IsEndpoint, validate_endpoint, validate_endpoint_iff, endpoint_local_ip}
use argonaut.Config.Hostname.{validate_hostname}
use argonaut.Config.Schema.{Endpoint}
use argonaut.Hosts.Lines.{entries, split-managed_block}
use argonaut.Hosts.Merge.{two_newlines, merge_hosts-merge_hosts, merge_hosts-keeps}
use argonaut.Hosts.{
  begin_marker, end_marker, managed_block, merge_hosts, base_text, validate_all, host_lines,
  strip_managed_hosts_block,
}
use argonaut.Text.Decimal.{itoa}
use argonaut.Text.Index.{index, Omits}
use argonaut.Text.Split.{split}
use argonaut.Text.Trim.{trim_right, all_space, space_width, is_newline}
use argonaut.Prelude.{ℕ, ◌≡◌, refl, true, false, List, [], ◌∷◌, ◌++◌, equal, ok, Bytes, codes, All}

abbrev endpoint : Bytes → ℕ → Endpoint
endpoint h port = record {
  host = h;
  vsock_port = port;
  tcp_port = 443;
  local_port = 443;
  local_ip = [];
  host_set = true;
  vsock_port_set = true;
  tcp_port_set = false;
  local_port_set = false;
  local_ip_set = false;
}

abbrev old : List Endpoint
old = endpoint (codes "example.com") 8101 ∷ []

abbrev new : List Endpoint
new = endpoint (codes "a.example") 8101 ∷ endpoint (codes "b.example") 8102 ∷ []

abbrev file : Bytes
file = codes "127.0.0.1 localhost\n10.0.0.1 db\n"

abbrev merged : Bytes
merged =
    codes
      "127.0.0.1 localhost\n10.0.0.1 db\n\n# argonaut begin\n127.0.0.64   example.com\n# argonaut end\n"

merges : merge_hosts file old ≡ ok merged
unfolding merge_hosts validate_all validate_endpoint validate_hostname equal base_text
    strip_managed_hosts_block index trim_right all_space space_width managed_block host_lines
    endpoint_local_ip itoa
merges = refl

old_valid : All IsEndpoint old
unfolding validate_endpoint validate_hostname equal
old_valid = ((validate_endpoint_iff (endpoint (codes "example.com") 8101)).0 refl, tt)

file-Omits : Omits begin_marker file
unfolding index
file-Omits = refl

file-strips : Omits begin_marker (strip_managed_hosts_block file)
unfolding index strip_managed_hosts_block
file-strips = refl

not_blank : all_space (trim_right is_newline file) ≡ false
unfolding all_space trim_right space_width
not_blank = refl

split-managed_block_example :
    split b'\n' (managed_block old) ≡ begin_marker ∷ (entries 0 old ++ (end_marker ∷ [] ∷ []))
split-managed_block_example = split-managed_block old old_valid

merge_hosts-merge_hosts_example : merge_hosts merged new ≡ merge_hosts file new
merge_hosts-merge_hosts_example = merge_hosts-merge_hosts file old new file-strips merges

merge_hosts-keeps_example :
    (body : Bytes) × (last : ℕ) × (cut : Bytes) × (file ≡ (body ++ last ∷ []) ++ cut)
    × (is_newline last ≡ false)
    × All (λ c. is_newline c ≡ true) cut
    × (merged ≡ (body ++ last ∷ []) ++ (two_newlines ++ managed_block old))
    × All IsEndpoint old
merge_hosts-keeps_example = merge_hosts-keeps file old file-Omits not_blank merges
