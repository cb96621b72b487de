-- ===== src/Network/Iptables/Ensure.antt =====
-- The rules after the `ensure` functions and after `add_source_ip_rule`.
use clawpot.Common.{◌≡◌, ap, ◌∙◌, subst, true, List, [], ◌∷◌, ◌++◌, Text, ok, Result}
use clawpot.Common.State.{continue, continue_inv, continue-ok}
use clawpot.Network.Addr.{IpAddr}
use clawpot.Host.{Rule, Trace, Env, Error}
use clawpot.Network.Iptables.{
  source_ip_rule, proxy_redirect_rules, egress_filter_rules, add_source_ip_rule, ipt_init,
  ensure_rules, append_rule, ensure_proxy_redirect_rules, ensure_egress_filter_rules,
}
use clawpot.Network.Iptables.Chains.{
  has_rule, rules, Reports, AllIn, ensure_rules-Keeps, ensure_rules-AllIn, ensure_rules-idle,
  rules-ipt_init, append_rule-rules,
}

-- What an `ensure` over `rs` has done when it succeeds, from `t` to `u`: all rules are in place and
-- none is lost.
pub record Ensures (rs : List Rule) (t u : Trace) : Type 0 where
  pub all : AllIn rs (rules u)
  pub kept : (r : Rule) → has_rule r (rules t) ≡ true → has_rule r (rules u) ≡ true

module _ (env : Env) (reports : Reports env) where
  abbrev ensure : List Rule → Trace → Result Error (Unit {0}) × Trace
  ensure rs t = continue (ipt_init env t) (λ _. ensure_rules env rs)

  ensure-Ensures :
      (rs : List Rule) (t : Trace) → (ensure rs t).0 ≡ ok tt → Ensures rs t (ensure rs t).1
  ensure-Ensures rs t h =
      let (a, u, e, later, same) = continue-ok (ipt_init env t) (λ _. ensure_rules env rs) h in
      let start : rules u ≡ rules t =
        subst (λ out. rules out.1 ≡ rules t) e (rules-ipt_init env t) in
      rw same (record {
        all = ensure_rules-AllIn env reports rs u later;
        kept = λ r k. ensure_rules-Keeps env reports rs u r (rw start k);
      })

  ensure-idle : (rs : List Rule) (t : Trace) → AllIn rs (rules t) → rules (ensure rs t).1 ≡ rules t
  ensure-idle rs t h =
      continue_inv (λ u. rules u ≡ rules t) (ipt_init env t) (λ _. ensure_rules env rs)
        (rules-ipt_init env t) (λ _ u _ k. ensure_rules-idle env reports rs u (rw k h) ∙ k)

  -- Where `iptables -C` reports truly: when `ensure_proxy_redirect_rules` succeeds, both redirect
  -- rules are in place and no rule is lost, and a second call changes no rule.
  pub ensure_proxy_redirect_rules-idempotent :
      (bridge : Text) (t : Trace)
      → (ensure_proxy_redirect_rules env bridge t).0 ≡ ok tt
      → let u = (ensure_proxy_redirect_rules env bridge t).1 in
        Ensures (proxy_redirect_rules bridge) t u
        × (rules (ensure_proxy_redirect_rules env bridge u).1 ≡ rules u)
  unfolding ensure_proxy_redirect_rules
  ensure_proxy_redirect_rules-idempotent bridge t h =
      let first = ensure-Ensures (proxy_redirect_rules bridge) t h in
      (first, ensure-idle (proxy_redirect_rules bridge) _ first.all)

  -- Where `iptables -C` reports truly: when `ensure_egress_filter_rules` succeeds, its three rules
  -- are in place and no rule is lost, and a second call changes no rule.
  pub ensure_egress_filter_rules-idempotent :
      (bridge : Text) (t : Trace)
      → (ensure_egress_filter_rules env bridge t).0 ≡ ok tt
      → let u = (ensure_egress_filter_rules env bridge t).1 in
        Ensures (egress_filter_rules bridge) t u
        × (rules (ensure_egress_filter_rules env bridge u).1 ≡ rules u)
  unfolding ensure_egress_filter_rules
  ensure_egress_filter_rules-idempotent bridge t h =
      let first = ensure-Ensures (egress_filter_rules bridge) t h in
      (first, ensure-idle (egress_filter_rules bridge) _ first.all)

module _ (env : Env) where
  -- `add_source_ip_rule` puts its rule behind all rules that are there.
  pub add_source_ip_rule-last :
      (tap : Text) (ip : IpAddr) (t : Trace)
      → (add_source_ip_rule env tap ip t).0 ≡ ok tt
      → rules (add_source_ip_rule env tap ip t).1 ≡ rules t ++ source_ip_rule tap ip ∷ []
  unfolding add_source_ip_rule
  add_source_ip_rule-last tap ip t h =
      let (a, u, e, later, same) =
        continue-ok (ipt_init env t) (λ _. append_rule env (source_ip_rule tap ip)) h in
      let start : rules u ≡ rules t =
        subst (λ out. rules out.1 ≡ rules t) e (rules-ipt_init env t) in
      rw same (
        append_rule-rules env (source_ip_rule tap ip) u later
        ∙ ap (λ rs. rs ++ source_ip_rule tap ip ∷ []) start)
