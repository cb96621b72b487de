-- ===== src/Cli/Vms.antt =====
-- The commands on VMs, clawpot-cli/src/commands/create.rs, delete.rs, exec.rs and list.rs. The calls of
-- the server and the rendering of a table (the crate tabled) are parameters.
use clawpot.Common.{
  ℕ, ◌==◌, Bool, true, false, List, [], ◌∷◌, ◌++◌, map, length, Option, none, some, Text, codes,
  dec, Result, ok, err, if◌then◌else◌,
}
use clawpot.Grpc.Create.{CreateVmRequest, CreateVmResponse}

-- An `i32`: whether it is negative, and its absolute value.
abbrev pub Signed : Type 0
Signed = Bool × ℕ

pub record ExecVmRequest : Type 0 where
  pub vm_id : Text
  pub command : Text
  pub args : List Text
  pub env : List (Text × Text)
  pub working_dir : Text

pub record ExecVmResponse : Type 0 where
  pub exit_code : Signed
  pub stdout : Text
  pub stderr : Text

-- `VmInfo`
pub record ListedVm : Type 0 where
  pub vm_id : Text
  pub state : Signed
  pub ip_address : Text
  pub vcpu_count : ℕ
  pub mem_size_mib : ℕ

pub record VmRow : Type 0 where
  pub vm_id : Text
  pub state : Text
  pub ip_address : Text
  pub vcpus : ℕ
  pub memory : ℕ

-- A call that fails gives none.
pub record Client : Type 0 where
  pub call_create : CreateVmRequest → Option CreateVmResponse
  pub call_delete : Text → Option Bool
  pub call_list : Option (List ListedVm)
  pub call_exec : ExecVmRequest → Option ExecVmResponse
  -- whether the process's own stdout and stderr take the bytes
  pub writes_stdout : Text → Bool
  pub writes_stderr : Text → Bool
  pub table : List VmRow → Text

pub data Error : Type 0 where
  call_failed no_command write_failed : Error

-- The process returns from the command, or exits with a code.
pub data End : Type 0 where
  returned : Result Error (Unit {0}) → End
  exit : Signed → End

-- What went to stdout and to stderr, and the end.
pub record Ran : Type 0 where
  pub stdout : Text
  pub stderr : Text
  pub end : End

abbrev joined : List Text → Text
joined [] = []
joined (l ∷ ls) = l ++ 10 ∷ joined ls

abbrev pub printed : List Text → End → Ran
printed ls e = record { stdout = joined ls; stderr = []; end = e }

abbrev success : End
success = returned (ok tt)

-- The check mark and the cross, in UTF-8.
abbrev check_mark : Text
check_mark = 226 ∷ 156 ∷ 147 ∷ []

abbrev cross : Text
cross = 226 ∷ 156 ∷ 151 ∷ []

abbrev after_create : Option CreateVmResponse → Ran
after_create none = printed (codes "Creating VM..." ∷ []) (returned (err call_failed))
after_create (some r) =
    printed
      (codes "Creating VM..."
        ∷ (10 ∷ (check_mark ++ codes " VM created successfully!"))
        ∷ (codes "  VM ID:      " ++ r.vm_id)
        ∷ (codes "  IP Address: " ++ r.ip_address)
        ∷ (codes "  Socket:     " ++ r.socket_path)
        ∷ [])
      success

unfoldable pub create : Client → (vcpus memory : Option ℕ) → Ran
create c vcpus memory =
    after_create (c.call_create (record { vcpu_count = vcpus; mem_size_mib = memory }))

abbrev deleting : Text → Text
deleting vm_id = codes "Deleting VM " ++ (vm_id ++ codes "...")

abbrev after_delete : Text → Option Bool → Ran
after_delete vm_id none = printed (deleting vm_id ∷ []) (returned (err call_failed))
after_delete vm_id (some true) =
    printed (deleting vm_id ∷ (10 ∷ (check_mark ++ codes " VM deleted successfully!")) ∷ []) success
after_delete vm_id (some false) =
    printed (deleting vm_id ∷ (10 ∷ (cross ++ codes " Failed to delete VM")) ∷ []) success

unfoldable pub delete : Client → Text → Ran
delete c vm_id = after_delete vm_id (c.call_delete vm_id)

-- `VmState::try_from(vm.state)`, and the name of the state.
unfoldable pub state_str : Signed → Text
state_str (true, n) = codes "Unknown"
state_str (false, n) =
    if n == 0
    then codes "Unspecified"
    else if n == 1
    then codes "Starting"
    else if n == 2
    then codes "Running"
    else if n == 3
    then codes "Stopping"
    else if n == 4
    then codes "Stopped"
    else if n == 5
    then codes "Error"
    else codes "Unknown"

abbrev row : ListedVm → VmRow
row vm = record {
  vm_id = vm.vm_id;
  state = state_str vm.state;
  ip_address = vm.ip_address;
  vcpus = vm.vcpu_count;
  memory = vm.mem_size_mib;
}

abbrev after_list : (List VmRow → Text) → Option (List ListedVm) → Ran
after_list table none = printed [] (returned (err call_failed))
after_list table (some []) = printed (codes "No VMs running" ∷ []) success
after_list table (some (vm ∷ vms)) =
    let rows = map row (vm ∷ vms) in
    printed (table rows ∷ (10 ∷ (codes "Total: " ++ (dec (length rows) ++ codes " VM(s)"))) ∷ [])
      success

unfoldable pub list : Client → Ran
unfolding state_str
list c = after_list c.table c.call_list

abbrev executed : Client → Option ExecVmResponse → Ran
executed c none = printed [] (returned (err call_failed))
executed c (some r) =
    if c.writes_stdout r.stdout
    then (if c.writes_stderr r.stderr
        then record { stdout = r.stdout; stderr = r.stderr; end = exit r.exit_code }
        else record { stdout = r.stdout; stderr = []; end = returned (err write_failed) })
    else printed [] (returned (err write_failed))

unfoldable pub exec : Client → (vm_id : Text) → (command : List Text) → Ran
exec c vm_id [] = printed [] (returned (err no_command))
exec c vm_id (cmd ∷ args) =
    executed c (
      c.call_exec
        (record { vm_id = vm_id; command = cmd; args = args; env = []; working_dir = [] }))
