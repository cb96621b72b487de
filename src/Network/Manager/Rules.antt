-- ===== src/Network/Manager/Rules.antt =====
-- The network manager's operations, by the iptables rules and the calls that they leave.
use clawpot.Common.{◌≡◌, sym, ap, ◌∙◌, subst, [], ◌∷◌, ◌++◌, Text, ok, arith}
use clawpot.Common.State.{continue, continue_post}
use clawpot.Network.Addr.{IpAddr, v4, ipv4}
use clawpot.Host.{Trace, Env}
use clawpot.Network.Iptables.{
  source_ip_rule, proxy_redirect_rules, egress_filter_rules, add_source_ip_rule,
  ensure_proxy_redirect_rules, ensure_egress_filter_rules,
}
use clawpot.Network.Iptables.Chains.{rules, Reports, AllIn, AllIn-Keeps}
use clawpot.Network.Iptables.Ensure.{
  ensure_proxy_redirect_rules-idempotent, ensure_egress_filter_rules-idempotent,
  add_source_ip_rule-last,
}
use clawpot.Network.Devices
use clawpot.Network.Manager.{NetworkManager, ensure_bridge, create_tap}

module _ (env : Env) (m : NetworkManager) where
  abbrev pub InPlace : Trace → Type 0
  InPlace u =
      AllIn (proxy_redirect_rules m.bridge_name) (rules u)
      × AllIn (egress_filter_rules m.bridge_name) (rules u)

  ensures_both :
      (t : Trace)
      → Reports env
      → (continue
          (ensure_proxy_redirect_rules env m.bridge_name t)
          (λ _. ensure_egress_filter_rules env m.bridge_name)).0
        ≡ ok tt
      → InPlace
          (continue
            (ensure_proxy_redirect_rules env m.bridge_name t)
            (λ _. ensure_egress_filter_rules env m.bridge_name)).1
  ensures_both t reports =
      continue_post InPlace (ensure_proxy_redirect_rules env m.bridge_name t)
        (λ _. ensure_egress_filter_rules env m.bridge_name)
        λ _ u e h.
          let proxy =
            (ensure_proxy_redirect_rules-idempotent env reports m.bridge_name t
              (ap (λ r. r.0) e)).0 in
          let egress = (ensure_egress_filter_rules-idempotent env reports m.bridge_name u h).0 in
          let before : AllIn (proxy_redirect_rules m.bridge_name) (rules u) =
            subst (λ r. AllIn (proxy_redirect_rules m.bridge_name) (rules r.1)) e proxy.all in
          (AllIn-Keeps _ u _ egress.kept before, egress.all)

  -- Where `iptables -C` reports truly: when `ensure_bridge` succeeds, whether or not the bridge
  -- existed, both redirect rules and the three egress rules of the bridge are in place.
  pub ensure_bridge-InPlace :
      (t : Trace)
      → Reports env
      → (ensure_bridge env m t).0 ≡ ok tt
      → InPlace (ensure_bridge env m t).1
  unfolding ensure_bridge
  ensure_bridge-InPlace t reports =
      let name = m.bridge_name in
      let gateway = v4 (ipv4 192 168 100 1) in
      continue_post InPlace
        (Devices.create_missing env name gateway (Devices.query_link env name t))
        (λ _ u. continue (Devices.enable_ip_forwarding env u) (λ _ v.
          continue (ensure_proxy_redirect_rules env name v)
            (λ _. ensure_egress_filter_rules env name)))
        (λ _ u _.
          continue_post InPlace (Devices.enable_ip_forwarding env u)
            (λ _ v.
              continue (ensure_proxy_redirect_rules env name v)
                (λ _. ensure_egress_filter_rules env name))
            (λ _ v _. ensures_both v reports))

  get_link_index-rules :
      (name : Text) (t : Trace) → rules (Devices.get_link_index env name t).1 ≡ rules t
  unfolding Devices.get_link_index rules
  get_link_index-rules name t = ground arith

  tap-rules : (tap : Text) (t : Trace) → rules (Devices.create_tap env tap t).1 ≡ rules t
  unfolding Devices.create_tap rules
  tap-rules tap t = ground arith

  attach-rules :
      (tap : Text) (t : Trace)
      → rules (Devices.attach_tap_to_bridge env m.bridge_name tap t).1 ≡ rules t
  unfolding Devices.attach_tap_to_bridge rules
  attach-rules tap t = ground arith

  -- When `create_tap` succeeds, the rule that pins the VM to its address stands behind every rule
  -- that the calls before it had left.
  pub create_tap-rules :
      (tap : Text) (ip : IpAddr) (t : Trace)
      → (create_tap env m tap ip t).0 ≡ ok tt
      → rules (create_tap env m tap ip t).1 ≡ rules t ++ source_ip_rule tap ip ∷ []
  unfolding create_tap
  create_tap-rules tap ip t =
      let After = λ (u : Trace). rules u ≡ rules t ++ source_ip_rule tap ip ∷ [] in
      continue_post After (Devices.create_tap env tap t)
        (λ _ u.
          continue (Devices.attach_tap_to_bridge env m.bridge_name tap u)
            (λ _. add_source_ip_rule env tap ip))
        (λ _ u e.
          continue_post After (Devices.attach_tap_to_bridge env m.bridge_name tap u)
            (λ _. add_source_ip_rule env tap ip)
            (λ _ v e' h.
              add_source_ip_rule-last env tap ip v h
              ∙ ap (λ rs. rs ++ source_ip_rule tap ip ∷ [])
                  (sym (ap (λ r. rules r.1) e')
                    ∙ attach-rules tap u
                    ∙ (sym (ap (λ r. rules r.1) e) ∙ tap-rules tap t))))
