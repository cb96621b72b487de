-- ===== src/Tests/Network.antt =====
-- Tests of clawpot-server/src/network.
use clawpot.Common.{◌≡◌, refl, [], ◌∷◌, codes, Text, ok, err, arith, dec, text_eq}
use clawpot.Network.Addr.{v4, ipv4, display}
use clawpot.Network.IpAllocator.{new, allocate, release, not_in_range}
use clawpot.Network.IpAllocator.Invariant.{new-IsValid}
use clawpot.Network.IpAllocator.Allocate.{Allocates, allocate-Allocates}
use clawpot.Network.IpAllocator.Release.{Releases, release-Releases}
use clawpot.Network.Manager.{create_tap, ensure_bridge}
use clawpot.Network.Manager
use clawpot.Network.Manager.Rules.{InPlace, ensure_bridge-InPlace, create_tap-rules}
use clawpot.Network.Iptables.{
  source_ip_rule, ensure_egress_filter_rules, egress_filter_rules, proxy_redirect_rules,
  redirect_rule, drop_rule, ensure_proxy_redirect_rules, ensure_rules, ensure_iptables_rule,
  append_unless, append_rule,
}
use clawpot.Network.Iptables.Chains.{Reports, rules, has_rule}
use clawpot.Tests.Hosts.{calm}

first_address : (allocate new).0 ≡ ok (v4 (ipv4 192 168 100 2))
unfolding allocate new
first_address = refl

gateway_refused : (release new (v4 (ipv4 192 168 100 1))).0 ≡ err not_in_range
unfolding release new
gateway_refused = refl

shown : display (v4 (ipv4 192 168 100 254)) ≡ codes "192.168.100.254"
unfolding display dec
shown = refl

allocate-Allocates_example : Allocates new (allocate new)
allocate-Allocates_example = allocate-Allocates new new-IsValid

release-Releases_example :
    Releases new (v4 (ipv4 192 168 100 9)) (release new (v4 (ipv4 192 168 100 9)))
release-Releases_example = release-Releases new (v4 (ipv4 192 168 100 9)) new-IsValid

calm-Reports : Reports calm
calm-Reports t r b e = ground arith

bridge_up : (ensure_bridge calm Manager.new []).0 ≡ ok tt
unfolding ensure_bridge Manager.new rules proxy_redirect_rules egress_filter_rules redirect_rule
    drop_rule has_rule text_eq ensure_proxy_redirect_rules ensure_egress_filter_rules ensure_rules
    ensure_iptables_rule append_unless append_rule
bridge_up = refl

ensure_bridge-InPlace_example : InPlace calm Manager.new (ensure_bridge calm Manager.new []).1
ensure_bridge-InPlace_example = ensure_bridge-InPlace calm Manager.new [] calm-Reports bridge_up

tap_up :
    (create_tap calm Manager.new (codes "tap-0123456789a") (v4 (ipv4 192 168 100 2)) []).0 ≡ ok tt
unfolding create_tap Manager.new
tap_up = refl

create_tap-rules_example :
    rules (create_tap calm Manager.new (codes "tap-0123456789a") (v4 (ipv4 192 168 100 2)) []).1
    ≡ source_ip_rule (codes "tap-0123456789a") (v4 (ipv4 192 168 100 2)) ∷ []
unfolding rules
create_tap-rules_example =
    create_tap-rules calm Manager.new (codes "tap-0123456789a") (v4 (ipv4 192 168 100 2)) [] tap_up

abbrev br0 : Text
br0 = codes "br0"

egress_up : (ensure_egress_filter_rules calm br0 []).0 ≡ ok tt
unfolding ensure_egress_filter_rules ensure_rules ensure_iptables_rule append_unless append_rule
    rules egress_filter_rules redirect_rule drop_rule has_rule text_eq
egress_up = refl
