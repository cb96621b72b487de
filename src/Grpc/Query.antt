-- ===== src/Grpc/Query.antt =====
-- `list_v_ms`, `exec_vm` and `exec_vm_stream` of clawpot-server/src/grpc/service.rs.
use clawpot.Common.{
  ℕ, ◌/◌, ◌==◌, ◌^◌, ◌≡◌, refl, Bool, true, false, List, ◌∷◌, map, ◌++◌, Option, none, some, Text,
  codes, Result, ok, err, Option-cases, inl, inr,
}
use clawpot.Host.{Env, Call, agent_connect, agent_exec, Reply, entry}
use clawpot.Agent.Exec.{ExecRequest}
use clawpot.Network.Addr.{display}
use clawpot.Vm.Registry.{VmId, Summary, lookup, get_vsock_path}
use clawpot.Vm.Registry
use clawpot.Grpc.Server.{
  Server, Status, invalid_argument, not_found, unavailable, internal, unimplemented,
  emit_with_outcome,
}

-- `state` is always `Running`.
pub record VmInfo : Type 0 where
  pub vm_id : Text
  pub ip_address : Text
  pub vcpu_count : ℕ
  pub mem_size_mib : ℕ
  pub created_at : ℕ
  pub socket_path : Text

pub record ExecVmRequest : Type 0 where
  pub vm_id : Text
  pub command : Text
  pub args : List Text
  pub env : List (Text × Text)
  pub working_dir : Text

unfoldable pub agent_req : ExecVmRequest → ExecRequest
agent_req req = record {
  command = req.command;
  args = req.args;
  working_dir = req.working_dir;
  env = req.env;
}

module _ (env : Env) where
  unfoldable pub vm_info : Summary → VmInfo
  vm_info (id, ip, tap_name, vcpu_count, mem_size_mib, created_at) = record {
    vm_id = env.uuid_display id;
    ip_address = display ip;
    vcpu_count = vcpu_count;
    mem_size_mib = mem_size_mib;
    created_at = created_at / 10 ^ 9;
    socket_path = codes "/tmp/fc-" ++ (env.uuid_simple id ++ codes ".sock");
  }

  unfoldable pub list_v_ms : Server → List VmInfo
  unfolding vm_info Registry.list
  list_v_ms s = map vm_info (Registry.list s.vm_registry)

  -- A call that the handler makes, and whether it succeeds.
  abbrev made : Call → Bool → Server → Server
  made c b s = record s { trace = entry c b ∷ s.trace }

  -- From the agent's reply on.
  unfoldable pub after_exec :
      ExecRequest → VmId → Text → Option Reply → Server → Result Status Reply × Server
  after_exec req vm_id path none s =
      (err (internal (codes "agent_exec")), made (agent_exec path req) false s)
  after_exec req vm_id path (some r) s = (
    ok r,
    emit_with_outcome (codes "vm.exec") vm_id (r.exit_code == 0)
        (made (agent_exec path req) true s),
  )

  -- From the connection to the agent on.
  unfoldable pub after_connect :
      ExecRequest → VmId → Text → Bool → Server → Result Status Reply × Server
  unfolding after_exec
  after_connect req vm_id path true s =
      let s' = made (agent_connect path) true s in
      after_exec req vm_id path (env.exec_reply s'.trace req) s'
  after_connect req vm_id path false s = (err unavailable, made (agent_connect path) false s)

  unfoldable pub with_path :
      ExecRequest → VmId → Result Registry.Error Text → Server → Result Status Reply × Server
  unfolding after_connect
  with_path req vm_id (ok path) s =
      after_connect req vm_id path (env.succeeds s.trace (agent_connect path)) s
  with_path req vm_id (err e) s = (err not_found, s)

  unfoldable pub with_id : ExecRequest → Option VmId → Server → Result Status Reply × Server
  unfolding with_path get_vsock_path
  with_id req none s = (err invalid_argument, s)
  with_id req (some vm_id) s = with_path req vm_id (get_vsock_path s.vm_registry vm_id) s

  -- The command goes to the agent as it came; the reply comes back as it is.
  unfoldable pub exec_vm : ExecVmRequest → Server → Result Status Reply × Server
  unfolding with_id agent_req
  exec_vm req s = with_id (agent_req req) (env.uuid_parse req.vm_id) s

  unfoldable pub exec_vm_stream : Server → Result Status Reply × Server
  exec_vm_stream s = (err unimplemented, s)

  abbrev pub Execution : Type 0
  Execution = Result Status Reply × Server

  -- The command of the request, with its arguments, environment and directory.
  abbrev pub as_it_came : ExecVmRequest → ExecRequest
  as_it_came req = record {
    command = req.command;
    args = req.args;
    working_dir = req.working_dir;
    env = req.env;
  }

  -- How `exec_vm` ends.
  pub data Execs (s : Server) (req : ExecVmRequest) (out : Execution) : Type 0 where
    no_id : env.uuid_parse req.vm_id ≡ none → out ≡ (err invalid_argument, s) → Execs s req out
    unknown :
        (id : VmId)
        → env.uuid_parse req.vm_id ≡ some id
        → lookup id s.vm_registry ≡ none
        → out ≡ (err not_found, s)
        → Execs s req out
    not_run :
        (id : VmId) (e : Registry.VmEntry) (st : Status)
        → env.uuid_parse req.vm_id ≡ some id
        → lookup id s.vm_registry ≡ some e
        → out.0 ≡ err st
        → out.1 ≡ record s { trace = out.1.trace }
        → Execs s req out
    run :
        (id : VmId) (e : Registry.VmEntry) (r : Reply)
        → env.uuid_parse req.vm_id ≡ some id
        → lookup id s.vm_registry ≡ some e
        → env.exec_reply (entry (agent_connect e.vsock_uds_path) true ∷ s.trace) (as_it_came req)
          ≡ some r
        → out.0 ≡ ok r
        → out.1
          ≡ emit_with_outcome (codes "vm.exec") id (r.exit_code == 0) (record s {
            trace =
                entry (agent_exec e.vsock_uds_path (as_it_came req)) true
                ∷ (entry (agent_connect e.vsock_uds_path) true ∷ s.trace);
          })
        → Execs s req out

  after_connect-Execs :
      (s : Server) (req : ExecVmRequest) (id : VmId) (e : Registry.VmEntry) (b : Bool)
      → env.uuid_parse req.vm_id ≡ some id
      → lookup id s.vm_registry ≡ some e
      → Execs s req (after_connect (agent_req req) id e.vsock_uds_path b s)
  unfolding after_connect agent_req
  after_connect-Execs s req id e false p here = not_run id e unavailable p here refl refl
  after_connect-Execs s req id e true p here =
      let path = e.vsock_uds_path in
      elim (Option-cases
        (env.exec_reply (entry (agent_connect path) true ∷ s.trace) (agent_req req))) [
          | inl silent ↦
              not_run id e (internal (codes "agent_exec")) p here (rw (silent, after_exec))
                (rw (silent, after_exec))
          | inr (r, reply) ↦
              run id e r p here reply (rw (reply, after_exec)) (rw (reply, after_exec))
        ]

  with_id-Execs :
      (s : Server) (req : ExecVmRequest) (o : Option VmId)
      → env.uuid_parse req.vm_id ≡ o
      → Execs s req (with_id (agent_req req) o s)
  unfolding with_id get_vsock_path
  with_id-Execs s req none p = no_id p refl
  with_id-Execs s req (some id) p = elim (Option-cases (lookup id s.vm_registry)) [
    | inl missing ↦ unknown id p missing (rw (missing, with_path))
    | inr (e, here) ↦
        rw (here, with_path)
          (after_connect-Execs s req id e (env.succeeds s.trace (agent_connect e.vsock_uds_path)) p
            here)
  ]

  -- `exec_vm` refuses a text that is no id and an id that is not registered without a call. For a
  -- registered VM it either fails and changes nothing but the calls made, or it connects to that
  -- VM's own vsock path, has the agent run the request's command with its arguments, environment and
  -- directory, returns the agent's reply as it is, and emits one event, a success exactly
  -- if the exit code is 0.
  pub exec_vm-Execs : (s : Server) (req : ExecVmRequest) → Execs s req (exec_vm req s)
  unfolding exec_vm
  exec_vm-Execs s req = with_id-Execs s req (env.uuid_parse req.vm_id) refl
