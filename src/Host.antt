-- ===== src/Host.antt =====
-- What the server asks of the machine it runs on: netlink, `/dev/net/tun`, iptables, files,
-- processes, Firecracker's API and the guest agent. None of this code is in the repository, so its
-- answers are a parameter, `Env`: each answer may depend on all calls made before (`Trace`, newest
-- first) and on what they answered.
use clawpot.Common.{ℕ, Bool, true, false, List, ◌∷◌, Option, none, some, Text, Result, ok, err}
use clawpot.Common.State.{M}
use clawpot.Network.Addr.{IpAddr}
use clawpot.Agent.Exec.{ExecRequest}

-- An iptables rule, as the `iptables` crate takes it.
pub record Rule : Type 0 where
  pub table : Text
  pub chain : Text
  pub spec : Text

-- The bodies of clawpot-common/src/firecracker/models.rs.
pub data Request : Type 0 where
  boot_source : (kernel_image_path boot_args : Text) → Request
  drive : (drive_id path_on_host : Text) (is_root_device is_read_only : Bool) → Request
  machine_config : (vcpu_count mem_size_mib : ℕ) → Request
  network_interface : (iface_id host_dev_name : Text) (guest_mac : Option Text) → Request
  entropy : Request
  vsock : (guest_cid : ℕ) (uds_path : Text) → Request
  instance_start send_ctrl_alt_del : Request

pub data Call : Type 0 where
  link_get : Text → Call
  link_add_bridge : Text → Call
  address_add : ℕ → IpAddr → ℕ → Call
  link_up : ℕ → Call
  link_set_controller : (link controller : ℕ) → Call
  link_del : ℕ → Call
  tun_open : Call
  tun_set_iff tun_set_persist : Text → Call
  ip_forward_write ip_forward_read : Call
  ipt_new : Call
  ipt_append ipt_exists ipt_delete : Rule → Call
  remove_file : Text → Call
  spawn : (socket_path : Text) → Call
  kill wait : ℕ → Call
  sleep : (ms : ℕ) → Call
  api : (socket_path : Text) → Request → Call
  agent_wait_ready agent_connect : (vsock_uds_path : Text) → Call
  agent_exec : (vsock_uds_path : Text) → ExecRequest → Call

-- A call and whether it succeeded.
pub record Entry : Type 0 where
  pub call : Call
  pub done : Bool

abbrev pub Trace : Type 0
Trace = List Entry

abbrev pub entry : Call → Bool → Entry
entry c b = record { call = c; done = b }

-- The outcome of a write to `/proc/sys/net/ipv4/ip_forward`.
pub data Wrote : Type 0 where
  written permission_denied other_error : Wrote

-- The agent's reply; `exit_code` is the bit pattern of the `i32`.
pub record Reply : Type 0 where
  pub exit_code : ℕ
  pub stdout : Text
  pub stderr : Text

pub record Env : Type 0 where
  -- of a call that returns no value
  pub succeeds : Trace → Call → Bool
  -- `none` is a failed query; `some none` finds no such link
  pub link_index : Trace → Text → Option (Option ℕ)
  pub rule_exists : Trace → Rule → Option Bool
  pub file_exists : Trace → Text → Bool
  pub write_ip_forward : Trace → Wrote
  pub read_ip_forward : Trace → Option Text
  -- the process that a `spawn` starts
  pub spawned : Trace → Option ℕ
  pub new_uuid : Trace → ℕ
  pub now : Trace → ℕ
  -- `Uuid::simple`, `Uuid::to_string` and `Uuid::parse_str`
  pub uuid_simple : ℕ → Text
  pub uuid_display : ℕ → Text
  pub uuid_parse : Text → Option ℕ
  -- the reply of the agent to `Exec`
  pub exec_reply : Trace → ExecRequest → Option Reply

-- The first error of a chain of calls.
pub data Error : Type 0 where
  failed : Call → Error
  name_too_long : Text → Error
  link_not_found : Text → Error
  forwarding_disabled : Error
  iptables_failed : Error

-- One call that returns no value.
abbrev pub make {ℓ} : {F : Type 0} {B : Type ℓ} → Bool → B → F → Result F B
make true b e = ok b
make false b e = err e

abbrev pub do_call : Env → Call → M Trace Error (Unit {0})
do_call env c t = (make (env.succeeds t c) tt (failed c), entry c (env.succeeds t c) ∷ t)

-- One call that returns a value, given what it returned.
abbrev pub answer {ℓ} : {A : Type ℓ} → Call → Option A → Trace → Result Error A × Trace
answer c none t = (err (failed c), entry c false ∷ t)
answer c (some a) t = (ok a, entry c true ∷ t)

-- The files that exist, as a call that leaves no trace.
abbrev pub exists : Env → Trace → Text → Bool
exists env t path = env.file_exists t path
