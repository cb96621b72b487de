-- ===== src/Network/Manager.antt =====
-- clawpot-server/src/network/mod.rs: the network manager.
pub mod Rules
use clawpot.Common.{Text, codes, Result, ok}
use clawpot.Common.State.{M, ◌>>=◌, ◌>>◌, pure, best_effort}
use clawpot.Network.Addr.{IpAddr, v4, ipv4}
use clawpot.Network.Iptables.{add_source_ip_rule, remove_source_ip_rule}
use clawpot.Network.Devices
use clawpot.Host.{Trace, Env, Error}

-- The handle is the argument `env` of the methods.
pub record NetworkManager : Type 0 where
  pub bridge_name : Text

unfoldable pub new : NetworkManager
new = record { bridge_name = codes "br0" }

module _ (env : Env) (m : NetworkManager) where
  unfoldable pub ensure_bridge : M Trace Error (Unit {0})
  unfolding Devices.ensure_bridge
  ensure_bridge = Devices.ensure_bridge env m.bridge_name (v4 (ipv4 192 168 100 1))

  unfoldable pub create_tap : Text → IpAddr → M Trace Error (Unit {0})
  unfolding Devices.create_tap Devices.attach_tap_to_bridge add_source_ip_rule
  create_tap tap_name ip = do
    Devices.create_tap env tap_name
    Devices.attach_tap_to_bridge env m.bridge_name tap_name
    add_source_ip_rule env tap_name ip

  unfoldable pub delete_tap : Text → IpAddr → M Trace Error (Unit {0})
  unfolding remove_source_ip_rule Devices.delete_tap
  delete_tap tap_name ip = do
    best_effort {F = Error} (remove_source_ip_rule env tap_name ip)
    Devices.delete_tap env tap_name
