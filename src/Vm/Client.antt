-- ===== src/Vm/Client.antt =====
-- `FirecrackerClient` of clawpot-common/src/firecracker/client.rs, and `status` of
-- clawpot-common/src/vm/manager.rs. The HTTP client over the Unix socket
-- is a parameter, as are what the derived code for the bodies of models.rs writes and reads. The
-- client is its socket path, which is UTF-8. Its state is the requests that it sent, newest first.
pub mod Wire
pub mod Configured
use clawpot.Common.{
  ℕ, leb, ltb, ◌&&◌, Bool, true, false, List, [], ◌∷◌, ◌++◌, Option, none, some, Text, codes,
  Result, ok, err, if◌then◌else◌,
}
use clawpot.Common.State.{M, ◌>>=◌, pure}
use clawpot.Vm.Lifecycle.{VmState, display}
use clawpot.Common.Utf8.{from_utf8_lossy}
use clawpot.Host.{
  Request, boot_source, drive, machine_config, network_interface, entropy, vsock, instance_start,
  send_ctrl_alt_del,
}

pub data Method : Type 0 where
  put_method get_method : Method

pub record HttpRequest : Type 0 where
  pub method : Method
  pub socket_path : Text
  pub path : Text
  pub content_type : Option Text
  pub body : Text

abbrev pub Wire : Type 0
Wire = List HttpRequest

-- The request was not sent, the body of the response could not be read, or there is a response.
pub data Exchange : Type 0 where
  not_sent unread : Exchange
  responded : (status : ℕ) (body : Text) → Exchange

pub record InstanceInfo : Type 0 where
  pub id : Text
  pub state : Text
  pub vmm_version : Text
  pub app_name : Text

pub data Error : Type 0 where
  not_serialized send_failed read_failed not_deserialized : Error
  api_error : (status : ℕ) (fault_message : Text) → Error
  request_failed : (status : ℕ) (error_text : Text) → Error

pub record Api : Type 0 where
  pub exchange : Wire → HttpRequest → Exchange
  pub to_string : Request → Option Text
  -- the `fault_message` of a body that is an `ErrorResponse`
  pub fault_message : Text → Option Text
  pub instance_info : Text → Option InstanceInfo

-- `StatusCode::is_success`
abbrev pub is_success : ℕ → Bool
is_success status = leb 200 status && ltb status 300

abbrev pub failure : ℕ → Text → Option Text → Error
failure status body none = request_failed status (from_utf8_lossy body)
failure status body (some message) = api_error status message

-- The path of the resource that a method puts its body to.
unfoldable pub path_of : Request → Text
path_of (boot_source kernel_image_path boot_args) = codes "/boot-source"
path_of (drive drive_id path_on_host is_root_device is_read_only) = codes "/drives/" ++ drive_id
path_of (machine_config vcpu_count mem_size_mib) = codes "/machine-config"
path_of (network_interface iface_id host_dev_name guest_mac) =
    codes "/network-interfaces/" ++ iface_id
path_of entropy = codes "/entropy"
path_of (vsock guest_cid uds_path) = codes "/vsock"
path_of instance_start = codes "/actions"
path_of send_ctrl_alt_del = codes "/actions"

module _ (api : Api) (socket_path : Text) where
  -- What a method makes of the response; `read` is what it does with the body of a success.
  unfoldable pub response {ℓ} : {A : Type ℓ} → (Text → Result Error A) → Exchange → Result Error A
  unfolding from_utf8_lossy
  response read not_sent = err send_failed
  response read unread = err read_failed
  response read (responded status body) =
      if is_success status then read body else err (failure status body (api.fault_message body))

  abbrev pub put_request : Text → Text → HttpRequest
  put_request path json = record {
    method = put_method;
    socket_path = socket_path;
    path = path;
    content_type = some (codes "application/json");
    body = json;
  }

  unfoldable pub put : Text → Option Text → M Wire Error (Unit {0})
  unfolding response
  put path none sent = (err not_serialized, sent)
  put path (some json) sent = (
    response (λ body. ok tt) (api.exchange sent (put_request path json)),
    put_request path json ∷ sent,
  )

  abbrev pub get_request : Text → HttpRequest
  get_request path = record {
    method = get_method;
    socket_path = socket_path;
    path = path;
    content_type = none;
    body = [];
  }

  abbrev deserialized : Option InstanceInfo → Result Error InstanceInfo
  deserialized none = err not_deserialized
  deserialized (some info) = ok info

  unfoldable pub get : Text → M Wire Error InstanceInfo
  unfolding response
  get path sent = (
    response (λ body. deserialized (api.instance_info body)) (api.exchange sent (get_request path)),
    get_request path ∷ sent,
  )

  -- `set_boot_source` to `set_entropy`: each puts its body to its resource.
  unfoldable pub call : Request → M Wire Error (Unit {0})
  unfolding put path_of
  call r = put (path_of r) (api.to_string r)

  unfoldable pub get_instance_info : M Wire Error InstanceInfo
  unfolding get
  get_instance_info = get (codes "/")

  -- `VmManager::status` of a manager in the given state.
  unfoldable pub status : VmState → M Wire Error Text
  unfolding get_instance_info display
  status current_state = do
    info ← get_instance_info
    pure (
        codes "State: "
        ++ (codes (display current_state)
            ++ (codes "\nFirecracker State: "
                ++ (info.state ++ (codes "\nVMM Version: " ++ info.vmm_version)))))
