-- ===== src/Vm/Client/Configured.antt =====
-- The HTTP requests by which `configure_vm` of clawpot-common/src/vm/manager.rs configures a VM, over the
-- client of clawpot-common/src/firecracker/client.rs.
use clawpot.Common.{
  ℕ, leb, ltb, ◌&&◌, ◌≤◌, ◌<◌, ◌≡◌, ◌⊎◌, inl, inr, refl, Bool-cases, true, false, List, [], ◌∷◌,
  ◌++◌, Option, none, some, Option-cases, Text, codes, Result, ok, err, arith,
}
use clawpot.Common.State.{M, ◌>>◌, continue}
use clawpot.Vm.Config.{VmConfig}
use clawpot.Host.{
  Request, boot_source, drive, machine_config, network_interface, entropy, vsock, Env,
}
use clawpot.Vm.Manager.{State, configure_vm}
use clawpot.Vm.Client.{
  Api, Wire, HttpRequest, put_method, Exchange, not_sent, unread, responded, Error, not_serialized,
  failure, response, path_of, put, call,
}
use clawpot.Vm.Client.Wire.{
  is_ok, wire, Over, network_call, vsock_call, configure, configure_vm-Does,
}

-- A resource of Firecracker's API, by its path, and the body that is put there.
abbrev pub Resource : Type 0
Resource = Text × Request

abbrev pub network_resource : Option Text → Option Text → List Resource
network_resource (some tap) (some ip) =
    (codes "/network-interfaces/eth0", network_interface (codes "eth0") tap none) ∷ []
network_resource _ _ = []

abbrev pub vsock_resource : Option ℕ → Option Text → List Resource
vsock_resource (some cid) (some uds_path) = (codes "/vsock", vsock cid uds_path) ∷ []
vsock_resource _ _ = []

-- The resources of a VM, in the order in which they are configured.
abbrev pub resources : VmConfig → List Resource
resources c =
    (codes "/boot-source", boot_source c.kernel_path c.boot_args)
    ∷ (codes "/drives/rootfs", drive (codes "rootfs") c.rootfs_path true false)
    ∷ (codes "/machine-config", machine_config c.vcpu_count c.mem_size_mib)
    ∷ (network_resource c.tap_device c.ip_address
        ++ (codes "/entropy", entropy) ∷ vsock_resource c.guest_cid c.vsock_uds_path)

module _ (client : Api) (p : Text) where
  -- The request that puts JSON at a path.
  abbrev pub request : Text → Text → HttpRequest
  request path json = record {
    method = put_method;
    socket_path = p;
    path = path;
    content_type = some (codes "application/json");
    body = json;
  }

  -- Firecracker answered with a status of success; or it did not.
  abbrev pub Accepted : Exchange → Type 0
  Accepted not_sent = ⊥
  Accepted unread = ⊥
  Accepted (responded status body) = (200 ≤ status) × (status < 300)

  abbrev pub Rejected : Exchange → Type 0
  Rejected not_sent = Unit {0}
  Rejected unread = Unit {0}
  Rejected (responded status body) = (status < 200) ⊎ (300 ≤ status)

  -- The resources are put one after the other, up to the first that has no JSON or is not accepted.
  pub data Puts : List Resource → Wire → Result Error (Unit {0}) × Wire → Type 0 where
    all_put : (w : Wire) → Puts [] w (ok tt, w)
    accepted :
        (path json : Text) (r : Request) (rest : List Resource) (w : Wire)
        (out : Result Error (Unit {0}) × Wire)
        → client.to_string r ≡ some json
        → Accepted (client.exchange w (request path json))
        → Puts rest (request path json ∷ w) out
        → Puts ((path, r) ∷ rest) w out
    rejected :
        (path json : Text) (r : Request) (rest : List Resource) (w : Wire) (e : Error)
        → client.to_string r ≡ some json
        → Rejected (client.exchange w (request path json))
        → Puts ((path, r) ∷ rest) w (err e, request path json ∷ w)
    no_json :
        (path : Text) (r : Request) (rest : List Resource) (w : Wire) (e : Error)
        → client.to_string r ≡ none
        → Puts ((path, r) ∷ rest) w (err e, w)

  Puts-continue :
      (rest : List Resource) (k : M Wire Error (Unit {0}))
      → ((w : Wire) → Puts rest w (k w))
      → {first : List Resource} {w : Wire} {out : Result Error (Unit {0}) × Wire} → Puts first w out
      → Puts (first ++ rest) w (continue out (λ _. k))
  Puts-continue rest k more (all_put w) = more w
  Puts-continue rest k more (accepted path json r first w out j a puts) =
      accepted path json r (first ++ rest) w _ j a (Puts-continue rest k more puts)
  Puts-continue rest k more (rejected path json r first w e j x) =
      rejected path json r (first ++ rest) w e j x
  Puts-continue rest k more (no_json path r first w e j) = no_json path r (first ++ rest) w e j

  abbrev Outcome : Exchange → Result Error (Unit {0}) → Type 0
  Outcome x out = (Accepted x × (out ≡ ok tt)) ⊎ (Rejected x × (e : Error) × (out ≡ err e))

  response-Outcome : (x : Exchange) → Outcome x (response client p (λ body. ok tt) x)
  unfolding response
  response-Outcome not_sent = inr (tt, _, refl)
  response-Outcome unread = inr (tt, _, refl)
  response-Outcome (responded status body) = elim (Bool-cases (leb 200 status && ltb status 300)) [
    | inl good ↦ inl ((ground (arith, good), ground (arith, good)), rw good refl)
    | inr bad ↦
        inr (ground (arith, bad), failure status body (client.fault_message body), rw bad refl)
  ]

  call-Puts : (r : Request) (w : Wire) → Puts ((path_of r, r) ∷ []) w (call client p r w)
  unfolding call put
  call-Puts r w = elim (Option-cases (client.to_string r)) [
    | inl j ↦ rw j (no_json (path_of r) r [] w not_serialized j)
    | inr (json, j) ↦ elim (response-Outcome (client.exchange w (request (path_of r) json))) [
      | inl (good, e) ↦
          rw (j, e)
            (accepted (path_of r) json r [] w _ j good (all_put (request (path_of r) json ∷ w)))
      | inr (bad, x, e) ↦ rw (j, e) (rejected (path_of r) json r [] w x j bad)
    ]
  ]

  Puts-seq :
      {first rest : List Resource} (m k : M Wire Error (Unit {0}))
      → ((w : Wire) → Puts first w (m w))
      → ((w : Wire) → Puts rest w (k w))
      → (w : Wire) → Puts (first ++ rest) w ((m >> k) w)
  Puts-seq {first} {rest} m k a b w = Puts-continue rest k b (a w)

  network_call-Puts :
      (tap ip : Option Text) (w : Wire)
      → Puts (network_resource tap ip) w (network_call client p tap ip w)
  unfolding network_call path_of
  network_call-Puts (some tap) (some ip) w = call-Puts (network_interface (codes "eth0") tap none) w
  network_call-Puts (some tap) none w = all_put w
  network_call-Puts none ip w = all_put w

  vsock_call-Puts :
      (cid : Option ℕ) (uds_path : Option Text) (w : Wire)
      → Puts (vsock_resource cid uds_path) w (vsock_call client p cid uds_path w)
  unfolding vsock_call path_of
  vsock_call-Puts (some cid) (some uds_path) w = call-Puts (vsock cid uds_path) w
  vsock_call-Puts (some cid) none w = all_put w
  vsock_call-Puts none uds_path w = all_put w

  configure-Puts : (c : VmConfig) (w : Wire) → Puts (resources c) w (configure client p c w)
  unfolding configure path_of
  configure-Puts c = Puts-seq _ _ (call-Puts (boot_source c.kernel_path c.boot_args)) (
      Puts-seq _ _ (call-Puts (drive (codes "rootfs") c.rootfs_path true false)) (
        Puts-seq _ _ (call-Puts (machine_config c.vcpu_count c.mem_size_mib)) (
          Puts-seq _ _ (network_call-Puts c.tap_device c.ip_address)
            (Puts-seq _ _ (call-Puts entropy) (vsock_call-Puts c.guest_cid c.vsock_uds_path)))))

  -- If the API answers the calls of the manager as it answers those of the client: `configure_vm` puts
  -- the resources of the VM one after the other, each as JSON to its own path, the boot source, the root
  -- drive, the machine, the network interface if a TAP device and an address are set, entropy, and the
  -- vsock device if both its parts are set; it succeeds exactly if all have JSON and are answered with a
  -- status of success, and it stops at the first that does not; and no other request is sent.
  pub configure_vm-Puts :
      (env : Env)
      → Over client env
      → (c : VmConfig) (s : State) → s.manager.socket_path ≡ p
      → (did : Result Error (Unit {0}) × Wire) × Puts (resources c) (wire client s.trace) did
        × (is_ok (configure_vm env c s).0 ≡ is_ok did.0)
        × (wire client (configure_vm env c s).1.trace ≡ did.1)
  configure_vm-Puts env over c s h =
      let does = configure_vm-Does client p env over c s h in
      (
        configure client p c (wire client s.trace),
        configure-Puts c (wire client s.trace),
        does.same_outcome,
        does.same_requests,
      )
