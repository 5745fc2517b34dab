-- ===== src/Tests/Ip.antt =====
-- Concrete networks for `sanitize_ip_network` of rust/src/lib/ip.rs.
use nmstate.Base.{codes, ◌-◌, ◌≡◌, refl, false, arith}
use nmstate.Error.{ok, is_ok}
use nmstate.Ip.{IpAddr, v4, addr_len, apply_ip_prefix_len, sanitize_ip_network, parse_ip, show_ip}
use nmstate.Ip.Prefix.{value, IsBlockOf, apply_ip_prefix_len-IsBlockOf}

ipv4_network : sanitize_ip_network (codes "192.0.2.77/24") ≡ ok (codes "192.0.2.0/24")
unfolding sanitize_ip_network parse_ip show_ip apply_ip_prefix_len
ipv4_network = refl

ipv6_network : sanitize_ip_network (codes "2001:DB8:0:0:0:0:0:1/32") ≡ ok (codes "2001:db8::/32")
unfolding sanitize_ip_network parse_ip show_ip apply_ip_prefix_len
ipv6_network = refl

ipv4_prefix_too_long : is_ok (sanitize_ip_network (codes "192.0.2.77/33")) ≡ false
unfolding sanitize_ip_network parse_ip show_ip apply_ip_prefix_len
ipv4_prefix_too_long = refl

-- 192.0.2.77
abbrev address : IpAddr
address = v4 3221226061

apply_ip_prefix_len-IsBlockOf_example :
    IsBlockOf (addr_len address - 24) (value (apply_ip_prefix_len address 24)) (value address)
    × (addr_len (apply_ip_prefix_len address 24) ≡ addr_len address)
apply_ip_prefix_len-IsBlockOf_example =
    apply_ip_prefix_len-IsBlockOf address 24 (omega arith) (omega arith)
