-- ===== src/Config/Decode/Encode.antt =====
-- A configuration as JSON, with the keys that its flags say were set.
use argonaut.Config.Schema.{Endpoint, Config}
use argonaut.Json.Value.{
  Json, Items, Members, null, number, text, array, object, no_items, item, no_members, member,
}
use argonaut.Text.Decimal.{itoa}
use argonaut.Prelude.{ℕ, Bool, true, false, List, [], ◌∷◌, Option, none, some, Bytes, codes}

abbrev pub opt_member : Bool → Bytes → Json → Members → Members
opt_member true k v ms = member k v ms
opt_member false k v ms = ms

abbrev pub uint : ℕ → Json
uint n = number (itoa n)

abbrev pub endpoint_members : Endpoint → Members
endpoint_members e = opt_member e.host_set (codes "host") (text e.host) (
    opt_member e.vsock_port_set (codes "vsockPort") (uint e.vsock_port) (
      opt_member e.tcp_port_set (codes "tcpPort") (uint e.tcp_port) (
        opt_member e.local_port_set (codes "localPort") (uint e.local_port)
          (opt_member e.local_ip_set (codes "localIP") (text e.local_ip) no_members))))

abbrev pub endpoint_items : List Endpoint → Items
endpoint_items [] = no_items
endpoint_items (e ∷ es) = item (object (endpoint_members e)) (endpoint_items es)

abbrev pub slice_json : Option (List Endpoint) → Json
slice_json none = null
slice_json (some es) = array (endpoint_items es)

abbrev pub config_json : Config → Json
config_json cfg = object (
    member (codes "schemaVersion") (text cfg.schema_version) (
      member (codes "httpPort") (uint cfg.http_port) (
        member (codes "httpVsockPort") (uint cfg.http_vsock_port) (
          member (codes "httpTcpPort") (uint cfg.http_tcp_port) (
            opt_member cfg.endpoints_set (codes "endpoints") (slice_json cfg.endpoints)
              no_members)))))
