-- ===== src/Network/Iptables.antt =====
-- clawpot-server/src/network/iptables.rs. Log messages and the descriptions in them are left out.
pub mod Chains
pub mod Ensure
use clawpot.Common.{
  ◌≡◌, Bool, true, false, List, [], ◌∷◌, ◌++◌, Option, none, some, Text, codes, Result, ok, err,
}
use clawpot.Common.State.{M, ◌>>=◌, ◌>>◌, pure, best_effort}
use clawpot.Network.Addr.{IpAddr, display}
use clawpot.Host.{
  Rule, Call, ipt_new, ipt_append, ipt_exists, ipt_delete, Trace, Env, Error, do_call, answer,
}

-- "-i {tap} ! -s {ip} -j DROP"
unfoldable pub source_ip_rule : Text → IpAddr → Rule
source_ip_rule tap ip = record {
  table = codes "filter";
  chain = codes "FORWARD";
  spec = codes "-i " ++ (tap ++ (codes " ! -s " ++ (display ip ++ codes " -j DROP")));
}

-- "-i {bridge} -p {proto} --dport {dport} -j REDIRECT --to-port {port}"
unfoldable pub redirect_rule : (bridge proto dport port : Text) → Rule
redirect_rule bridge proto dport port = record {
  table = codes "nat";
  chain = codes "PREROUTING";
  spec =
      codes "-i "
      ++ (bridge
          ++ (codes " -p "
              ++ (proto
                  ++ (codes " --dport " ++ (dport ++ (codes " -j REDIRECT --to-port " ++ port))))));
}

-- "-i {bridge} -j DROP"
unfoldable pub drop_rule : Text → Rule
drop_rule bridge = record {
  table = codes "filter";
  chain = codes "FORWARD";
  spec = codes "-i " ++ (bridge ++ codes " -j DROP");
}

unfoldable pub proxy_redirect_rules : Text → List Rule
proxy_redirect_rules bridge =
    redirect_rule bridge (codes "tcp") (codes "80") (codes "10080")
    ∷ redirect_rule bridge (codes "tcp") (codes "443") (codes "10443")
    ∷ []

unfoldable pub egress_filter_rules : Text → List Rule
egress_filter_rules bridge =
    redirect_rule bridge (codes "udp") (codes "53") (codes "10053")
    ∷ redirect_rule bridge (codes "tcp") (codes "53") (codes "10053")
    ∷ drop_rule bridge
    ∷ []

module _ (env : Env) where
  unfoldable pub ipt_init : M Trace Error (Unit {0})
  ipt_init = do_call env ipt_new

  -- `ipt_append`: one rule at the end of its chain.
  unfoldable pub append_rule : Rule → M Trace Error (Unit {0})
  append_rule r = do_call env (ipt_append r)

  unfoldable pub add_source_ip_rule : Text → IpAddr → M Trace Error (Unit {0})
  unfolding ipt_init append_rule
  add_source_ip_rule tap ip = do ipt_init; append_rule (source_ip_rule tap ip)

  -- Any failure is only logged.
  unfoldable pub remove_source_ip_rule : Text → IpAddr → M Trace Error (Unit {0})
  unfolding ipt_init
  remove_source_ip_rule tap ip =
      best_effort {F = Error} (do ipt_init; do_call env (ipt_delete (source_ip_rule tap ip)))

  -- The rules of `add_proxy_redirect_rules` and `add_egress_filter_rules`, one after the other.
  unfoldable pub append_rules : List Rule → M Trace Error (Unit {0})
  append_rules [] = pure tt
  append_rules (r ∷ rs) = do append_rule r; append_rules rs

  unfoldable pub add_proxy_redirect_rules : Text → M Trace Error (Unit {0})
  unfolding ipt_init append_rules
  add_proxy_redirect_rules bridge = do ipt_init; append_rules (proxy_redirect_rules bridge)

  unfoldable pub add_egress_filter_rules : Text → M Trace Error (Unit {0})
  unfolding ipt_init append_rules
  add_egress_filter_rules bridge = do ipt_init; append_rules (egress_filter_rules bridge)

  -- What follows the check for the rule.
  unfoldable pub append_unless : Rule → Bool → M Trace Error (Unit {0})
  append_unless r true = pure tt
  append_unless r false = append_rule r

  unfoldable pub ensure_iptables_rule : Rule → M Trace Error (Unit {0})
  unfolding append_unless append_rule
  ensure_iptables_rule r = do
    found ← (λ t. answer (ipt_exists r) (env.rule_exists t r) t)
    append_unless r found

  -- The loop over `rules`.
  unfoldable pub ensure_rules : List Rule → M Trace Error (Unit {0})
  ensure_rules [] = pure tt
  ensure_rules (r ∷ rs) = do ensure_iptables_rule r; ensure_rules rs

  unfoldable pub ensure_proxy_redirect_rules : Text → M Trace Error (Unit {0})
  unfolding ipt_init ensure_rules
  ensure_proxy_redirect_rules bridge = do ipt_init; ensure_rules (proxy_redirect_rules bridge)

  unfoldable pub ensure_egress_filter_rules : Text → M Trace Error (Unit {0})
  unfolding ipt_init ensure_rules
  ensure_egress_filter_rules bridge = do ipt_init; ensure_rules (egress_filter_rules bridge)

  -- The loop of `remove_proxy_rules`; a failure is only logged.
  unfoldable pub delete_rules : List Rule → M Trace Error (Unit {0})
  delete_rules [] = pure tt
  delete_rules (r ∷ rs) = do best_effort {F = Error} (do_call env (ipt_delete r)); delete_rules rs

  unfoldable pub remove_proxy_rules : Text → M Trace Error (Unit {0})
  unfolding ipt_init delete_rules
  remove_proxy_rules bridge =
      best_effort {F = Error}
        (do ipt_init; delete_rules (proxy_redirect_rules bridge ++ egress_filter_rules bridge))
