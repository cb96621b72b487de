-- ===== src/Network/Devices.antt =====
-- clawpot-server/src/network/tap.rs and bridge.rs: TAP devices and the bridge, by netlink, ioctl
-- and the sysctl file of IP forwarding.
use clawpot.Common.{
  ◌∷◌, ℕ, ltb, Bool, true, false, Option, none, some, Text, text_eq, codes, trim, length, Result,
  ok, err, if◌then◌else◌,
}
use clawpot.Common.State.{M, ◌>>=◌, ◌>>◌, pure, throw}
use clawpot.Network.Addr.{IpAddr}
use clawpot.Network.Iptables.{
  add_proxy_redirect_rules, add_egress_filter_rules, ensure_proxy_redirect_rules,
  ensure_egress_filter_rules,
}
use clawpot.Host.{
  link_get, link_add_bridge, address_add, link_up, link_set_controller, link_del, tun_open,
  tun_set_iff, tun_set_persist, ip_forward_write, ip_forward_read, entry, Trace, Wrote, written,
  permission_denied, other_error, Env, Error, failed, name_too_long, link_not_found,
  forwarding_disabled, do_call, answer,
}

-- `libc::IFNAMSIZ`
abbrev pub ifnamsiz : ℕ
ifnamsiz = 16

module _ (env : Env) where
  -- `handle.link().get().match_name(name).execute().try_next()`
  abbrev pub query_link : Text → M Trace Error (Option ℕ)
  query_link name t = answer (link_get name) (env.link_index t name) t

  unfoldable pub found_link : Text → Option ℕ → M Trace Error ℕ
  found_link name none = throw (link_not_found name)
  found_link name (some index) = pure index

  unfoldable pub get_link_index : Text → M Trace Error ℕ
  unfolding found_link
  get_link_index name = do link ← query_link name; found_link name link

  unfoldable pub bring_up : Text → M Trace Error (Unit {0})
  unfolding get_link_index
  bring_up name = do index ← get_link_index name; do_call env (link_up index)

  unfoldable pub create_tap : Text → M Trace Error (Unit {0})
  unfolding bring_up
  create_tap name = do
    (if ltb (length name) ifnamsiz then pure tt else throw (name_too_long name))
    do_call env tun_open
    do_call env (tun_set_iff name)
    do_call env (tun_set_persist name)
    bring_up name

  -- A device that is not found, or not read, counts as deleted.
  unfoldable pub delete_found : Result Error ℕ × Trace → Result Error (Unit {0}) × Trace
  delete_found (ok index, t) = do_call env (link_del index) t
  delete_found (err e, t) = (ok tt, t)

  unfoldable pub delete_tap : Text → M Trace Error (Unit {0})
  unfolding delete_found get_link_index
  delete_tap name t = delete_found (get_link_index name t)

  unfoldable pub attach_tap_to_bridge : (bridge tap : Text) → M Trace Error (Unit {0})
  unfolding get_link_index
  attach_tap_to_bridge bridge tap = do
    bridge_index ← get_link_index bridge
    tap_index ← get_link_index tap
    do_call env (link_set_controller tap_index bridge_index)

  -- The status read after a write was denied: enabled already, or an error.
  unfoldable pub check_forwarding : Text → M Trace Error (Unit {0})
  check_forwarding current =
      if text_eq (trim current) (codes "1") then pure tt else throw forwarding_disabled

  unfoldable pub after_write : Wrote → M Trace Error (Unit {0})
  unfolding check_forwarding
  after_write written = pure tt
  after_write permission_denied = do
    current ← (λ t. answer ip_forward_read (env.read_ip_forward t) t)
    check_forwarding current
  after_write other_error = throw (failed ip_forward_write)

  abbrev pub was_written : Wrote → Bool
  was_written written = true
  was_written _ = false

  unfoldable pub enable_ip_forwarding : M Trace Error (Unit {0})
  unfolding after_write
  enable_ip_forwarding t =
      after_write (env.write_ip_forward t)
        (entry ip_forward_write (was_written (env.write_ip_forward t)) ∷ t)

  unfoldable pub create_bridge : Text → IpAddr → M Trace Error (Unit {0})
  unfolding get_link_index enable_ip_forwarding add_proxy_redirect_rules add_egress_filter_rules
  create_bridge name gateway_ip = do
    do_call env (link_add_bridge name)
    index ← get_link_index name
    do_call env (address_add index gateway_ip 24)
    do_call env (link_up index)
    enable_ip_forwarding
    add_proxy_redirect_rules env name
    add_egress_filter_rules env name

  -- `links.try_next().await.is_ok()` is also true where the stream ends with no link.
  unfoldable pub create_missing :
      Text → IpAddr → Result Error (Option ℕ) × Trace → Result Error (Unit {0}) × Trace
  unfolding create_bridge
  create_missing name gateway_ip (ok link, t) = (ok tt, t)
  create_missing name gateway_ip (err e, t) = create_bridge name gateway_ip t

  unfoldable pub ensure_bridge : Text → IpAddr → M Trace Error (Unit {0})
  unfolding create_missing enable_ip_forwarding ensure_proxy_redirect_rules
      ensure_egress_filter_rules
  ensure_bridge name gateway_ip = do
    (λ t. create_missing name gateway_ip (query_link name t))
    enable_ip_forwarding
    ensure_proxy_redirect_rules env name
    ensure_egress_filter_rules env name
