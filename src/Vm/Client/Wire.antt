-- ===== src/Vm/Client/Wire.antt =====
-- `configure_vm` of clawpot-common/src/vm/manager.rs over the requests of
-- clawpot-common/src/firecracker/client.rs.
use clawpot.Common.{
  ℕ, ◌≡◌, refl, sym, ap, ◌∙◌, subst, inl, inr, Option-cases, Bool, true, false, [], ◌∷◌, Option,
  none, some, Text, codes, Result, ok, err,
}
use clawpot.Common.State.{M, ◌>>◌, continue, pure}
use clawpot.Vm.Config.{VmConfig}
use clawpot.Host.{
  Request, boot_source, drive, machine_config, network_interface, entropy, vsock, Call, api, Trace,
  Env, make, failed,
}
use clawpot.Vm.Manager.{State, Error, lifted, put, put_network, put_vsock, configure_vm}
use clawpot.Vm.Client.{Api, Wire, HttpRequest, put_request, path_of, call}
use clawpot.Vm.Client

abbrev pub is_ok {ℓ} : {E : Type 0} {A : Type ℓ} → Result E A → Bool
is_ok (ok a) = true
is_ok (err e) = false

abbrev made : Bool → Call → State → Trace → Result Error (Unit {0}) × State
made b c s t = lifted s (make b tt (failed c), t)

lifted-is_ok : (b : Bool) (c : Call) (s : State) (t : Trace) → is_ok (made b c s t).0 ≡ b
lifted-is_ok true c s t = refl
lifted-is_ok false c s t = refl

lifted-trace : (b : Bool) (c : Call) (s : State) (t : Trace) → (made b c s t).1.trace ≡ t
lifted-trace true c s t = refl
lifted-trace false c s t = refl

lifted-manager :
    (b : Bool) (c : Call) (s : State) (t : Trace) → (made b c s t).1.manager ≡ s.manager
lifted-manager true c s t = refl
lifted-manager false c s t = refl

module _ (client : Api) where
  abbrev sent_as : Text → Request → Option Text → Wire → Wire
  sent_as p r none w = w
  sent_as p r (some json) w = put_request client p (path_of r) json ∷ w

  abbrev sent_by : Call → Wire → Wire
  sent_by (api p r) w = sent_as p r (client.to_string r) w
  sent_by _ w = w

  -- The HTTP requests of the calls that were made.
  unfoldable pub wire : Trace → Wire
  unfolding path_of
  wire [] = []
  wire (e ∷ t) = sent_by e.call (wire t)

  -- The API answers the host's calls as it answers the client.
  abbrev pub Over : Env → Type 0
  Over env =
      (t : Trace) (p : Text) (r : Request)
      → env.succeeds t (api p r) ≡ is_ok (call client p r (wire t)).0

  module _ (p : Text) where
    unfoldable pub network_call : Option Text → Option Text → M Wire Client.Error (Unit {0})
    unfolding call
    network_call (some tap) (some ip) = call client p (network_interface (codes "eth0") tap none)
    network_call (some tap) none = pure tt
    network_call none ip = pure tt

    unfoldable pub vsock_call : Option ℕ → Option Text → M Wire Client.Error (Unit {0})
    unfolding call
    vsock_call (some cid) (some uds_path) = call client p (vsock cid uds_path)
    vsock_call (some cid) none = pure tt
    vsock_call none uds_path = pure tt

    -- The configuration as calls of the client, one after the other, up to the first that fails.
    unfoldable pub configure : VmConfig → M Wire Client.Error (Unit {0})
    unfolding network_call vsock_call
    configure c = do
      call client p (boot_source c.kernel_path c.boot_args)
      call client p (drive (codes "rootfs") c.rootfs_path true false)
      call client p (machine_config c.vcpu_count c.mem_size_mib)
      network_call c.tap_device c.ip_address
      call client p entropy
      vsock_call c.guest_cid c.vsock_uds_path

    -- A run of the manager does as calls of the client do.
    pub record Does (out : Result Error (Unit {0}) × State)
        (did : Result Client.Error (Unit {0}) × Wire) : Type 0 where
      pub same_outcome : is_ok out.0 ≡ is_ok did.0
      pub same_requests : wire out.1.trace ≡ did.1
      pub same_path : out.1.manager.socket_path ≡ p

    record Simulates (m : M State Error (Unit {0})) (k : M Wire Client.Error (Unit {0}))
        : Type 0 where
      does : (s : State) → s.manager.socket_path ≡ p → Does (m s) (k (wire s.trace))

    Does-continue :
        (k : M State Error (Unit {0})) (k' : M Wire Client.Error (Unit {0}))
        (out : Result Error (Unit {0}) × State) (did : Result Client.Error (Unit {0}) × Wire)
        → Does out did
        → Simulates k k'
        → Does (continue out (λ _. k)) (continue did (λ _. k'))
    Does-continue k k' (ok a, u) (ok b, w) d rest =
        subst (λ v. Does (k u) (k' v)) d.same_requests (rest.does u d.same_path)
    Does-continue k k' (ok a, u) (err e, w) d rest = absurd (cc (d.same_outcome))
    Does-continue k k' (err e, u) (ok b, w) d rest = absurd (cc (d.same_outcome))
    Does-continue k k' (err e, u) (err f, w) d rest = record {
      same_outcome = refl;
      same_requests = d.same_requests;
      same_path = d.same_path;
    }

    Simulates-seq :
        {m k : M State Error (Unit {0})} {m' k' : M Wire Client.Error (Unit {0})}
        → Simulates m m'
        → Simulates k k'
        → Simulates (m >> k) (m' >> k')
    Simulates-seq {m} {k} {m'} {k'} first rest = record {
      does = λ s h. Does-continue k k' (m s) (m' (wire s.trace)) (first.does s h) rest;
    }

    pure-Simulates : Simulates (pure tt) (pure tt)
    pure-Simulates = record {
      does = λ s h. record { same_outcome = refl; same_requests = refl; same_path = h };
    }

    call-sent :
        (r : Request) (w : Wire) → (call client p r w).1 ≡ sent_as p r (client.to_string r) w
    unfolding call
    call-sent r w = elim (Option-cases (client.to_string r)) [
      | inl e ↦ rw e (unfold Client.put in refl)
      | inr (json, e) ↦ rw e (unfold Client.put in refl)
    ]

    module _ (env : Env) (over : Over env) where
      put-Does :
          (r : Request) (s : State)
          → s.manager.socket_path ≡ p
          → Does (put env r s) (call client p r (wire s.trace))
      unfolding wire
      put-Does r s h =
          let q = s.manager.socket_path in
          let b = env.succeeds s.trace (api q r) in
          record {
            same_outcome =
                lifted-is_ok b (api q r) s _
                ∙ (over s.trace q r ∙ ap (λ x. is_ok (call client x r (wire s.trace)).0) h);
            same_requests =
                ap wire (lifted-trace b (api q r) s _)
                ∙ ap (λ x. sent_as x r (client.to_string r) (wire s.trace)) h
                ∙ sym (call-sent r (wire s.trace));
            same_path = ap (λ m. m.socket_path) (lifted-manager b (api q r) s _) ∙ h;
          }

      put-Simulates : (r : Request) → Simulates (put env r) (call client p r)
      put-Simulates r = record { does = put-Does r }

      put_network-Simulates :
          (tap ip : Option Text) → Simulates (put_network env tap ip) (network_call tap ip)
      unfolding put_network network_call
      put_network-Simulates (some tap) (some ip) =
          put-Simulates (network_interface (codes "eth0") tap none)
      put_network-Simulates (some tap) none = pure-Simulates
      put_network-Simulates none ip = pure-Simulates

      put_vsock-Simulates :
          (cid : Option ℕ) (uds_path : Option Text)
          → Simulates (put_vsock env cid uds_path) (vsock_call cid uds_path)
      unfolding put_vsock vsock_call
      put_vsock-Simulates (some cid) (some uds_path) = put-Simulates (vsock cid uds_path)
      put_vsock-Simulates (some cid) none = pure-Simulates
      put_vsock-Simulates none uds_path = pure-Simulates

      pub configure_vm-Does :
          (c : VmConfig) (s : State)
          → s.manager.socket_path ≡ p
          → Does (configure_vm env c s) (configure c (wire s.trace))
      unfolding configure_vm configure
      configure_vm-Does c s h =
          (Simulates-seq (put-Simulates (boot_source c.kernel_path c.boot_args)) (
              Simulates-seq (put-Simulates (drive (codes "rootfs") c.rootfs_path true false)) (
                Simulates-seq (put-Simulates (machine_config c.vcpu_count c.mem_size_mib)) (
                  Simulates-seq (put_network-Simulates c.tap_device c.ip_address) (
                    Simulates-seq (put-Simulates entropy)
                      (put_vsock-Simulates c.guest_cid c.vsock_uds_path)))))).does
            s h
