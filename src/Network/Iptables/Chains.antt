-- ===== src/Network/Iptables/Chains.antt =====
-- The iptables rules as the calls leave them, and what the `ensure` functions do to them.
use clawpot.Common.{
  ◌≡◌, refl, sym, ap, ◌∙◌, subst, Bool, true, false, ◌||◌, ◌&&◌, List, [], ◌∷◌, ◌++◌, Option, none,
  some, text_eq, text_eq_iff, Result, ok, err, arith, if◌then◌else◌,
}
use clawpot.Common.State.{continue_inv, continue-ok}
use clawpot.Host.{Rule, Call, ipt_append, ipt_exists, ipt_delete, entry, Trace, Env, Error, failed}
use clawpot.Network.Iptables.{ensure_iptables_rule, ensure_rules, ipt_init, append_rule}

abbrev pub rule_eq : Rule → Rule → Bool
rule_eq a b = text_eq a.table b.table && (text_eq a.chain b.chain && text_eq a.spec b.spec)

rule_eq_refl : (a : Rule) → rule_eq a a ≡ true
rule_eq_refl a =
    ground
      (arith, text_eq_iff a.table a.table, text_eq_iff a.chain a.chain, text_eq_iff a.spec a.spec)

unfoldable pub has_rule : Rule → List Rule → Bool
has_rule r [] = false
has_rule r (x ∷ xs) = rule_eq x r || has_rule r xs

-- `iptables -D` takes the first matching rule away.
unfoldable pub remove_rule : Rule → List Rule → List Rule
remove_rule r [] = []
remove_rule r (x ∷ xs) = if rule_eq x r then xs else x ∷ remove_rule r xs

abbrev pub effect : Call → Bool → List Rule → List Rule
effect (ipt_append r) true rs = rs ++ r ∷ []
effect (ipt_delete r) true rs = remove_rule r rs
effect _ _ rs = rs

-- The rules after the calls of a trace: an append that succeeded adds its rule at the end.
unfoldable pub rules : Trace → List Rule
rules [] = []
rules (e ∷ t) = effect e.call e.done (rules t)

-- What iptables documents of `-C`: it reports whether the rule is there.
abbrev pub Reports : Env → Type 0
Reports env =
    (t : Trace) (r : Rule) (b : Bool) → env.rule_exists t r ≡ some b → b ≡ has_rule r (rules t)

has_rule-append :
    (r : Rule) (xs ys : List Rule) → has_rule r (xs ++ ys) ≡ (has_rule r xs || has_rule r ys)
unfolding has_rule
has_rule-append r [] ys = refl
has_rule-append r (x ∷ xs) ys = ground (arith, has_rule-append r xs ys)

abbrev pub AllIn : List Rule → List Rule → Type 0
AllIn [] xs = Unit {0}
AllIn (r ∷ rs) xs = (has_rule r xs ≡ true) × AllIn rs xs

-- The rules only grow.
abbrev pub Keeps : Trace → Trace → Type 0
Keeps t u = (r : Rule) → has_rule r (rules t) ≡ true → has_rule r (rules u) ≡ true

pub AllIn-Keeps :
    (rs : List Rule) (t u : Trace) → Keeps t u → AllIn rs (rules t) → AllIn rs (rules u)
AllIn-Keeps [] t u k h = tt
AllIn-Keeps (r ∷ rs) t u k (h, hs) = (k r h, AllIn-Keeps rs t u k hs)

module _ (env : Env) where
  pub rules-ipt_init : (t : Trace) → rules (ipt_init env t).1 ≡ rules t
  unfolding ipt_init rules
  rules-ipt_init t = ground arith

  pub append_rule-rules :
      (r : Rule) (t : Trace)
      → (append_rule env r t).0 ≡ ok tt
      → rules (append_rule env r t).1 ≡ rules t ++ r ∷ []
  unfolding append_rule rules
  append_rule-rules r t h = ground arith

  append_rule-has :
      (r : Rule) (t : Trace)
      → (append_rule env r t).0 ≡ ok tt
      → has_rule r (rules (append_rule env r t).1) ≡ true
  unfolding append_rule rules has_rule
  append_rule-has r t h = ground (arith, has_rule-append r (rules t) (r ∷ []), rule_eq_refl r)

  append_rule-Keeps : (r : Rule) (t : Trace) → Keeps t (append_rule env r t).1
  unfolding append_rule rules
  append_rule-Keeps r t x h = ground (arith, has_rule-append x (rules t) (r ∷ []))

  -- How the check for one rule ends.
  data Ensured (r : Rule) (t : Trace) (out : Result Error (Unit {0}) × Trace) : Type 0 where
    there :
        (u : Trace)
        → rules u ≡ rules t
        → has_rule r (rules t) ≡ true
        → out ≡ (ok tt, u)
        → Ensured r t out
    unread : (u : Trace) → rules u ≡ rules t → (e : Error) → out ≡ (err e, u) → Ensured r t out
    added :
        (u : Trace)
        → rules u ≡ rules t
        → has_rule r (rules t) ≡ false
        → out ≡ append_rule env r u
        → Ensured r t out

  module _ (reports : Reports env) where
    ensure-Ensured : (r : Rule) (t : Trace) → Ensured r t (ensure_iptables_rule env r t)
    unfolding ensure_iptables_rule rules
    ensure-Ensured r t = go (env.rule_exists t r) refl
      where
        go :
            (o : Option Bool) → env.rule_exists t r ≡ o → Ensured r t (ensure_iptables_rule env r t)
        go none e =
            unread (entry (ipt_exists r) false ∷ t) refl (failed (ipt_exists r))
              (rw (e, ensure_iptables_rule))
        go (some true) e =
            there (entry (ipt_exists r) true ∷ t) refl (sym (reports t r true e))
              (rw (e, ensure_iptables_rule))
        go (some false) e =
            added (entry (ipt_exists r) true ∷ t) refl (sym (reports t r false e))
              (rw (e, ensure_iptables_rule))

    abbrev Step : Rule → Trace → Result Error (Unit {0}) × Trace → Type 0
    Step r t out =
        Keeps t out.1
        × (out.0 ≡ ok tt → has_rule r (rules out.1) ≡ true)
        × (has_rule r (rules t) ≡ true → rules out.1 ≡ rules t)

    Ensured-Step :
        (r : Rule) (t : Trace) (out : Result Error (Unit {0}) × Trace)
        → Ensured r t out
        → Step r t out
    Ensured-Step r t out (there u same has e) =
        subst (Step r t) (sym e) ((λ x h. rw same h), (λ _. rw same has), (λ _. same))
    Ensured-Step r t out (unread u same x e) =
        subst (Step r t) (sym e) ((λ x h. rw same h), (λ h. cc), (λ _. same))
    Ensured-Step r t out (added u same not e) =
        subst (Step r t) (sym e)
          ((λ x h. append_rule-Keeps r u x (rw same h)), (λ h. append_rule-has r u h), (λ h. cc))

    ensure-Step : (r : Rule) (t : Trace) → Step r t (ensure_iptables_rule env r t)
    ensure-Step r t = Ensured-Step r t _ (ensure-Ensured r t)

    pub ensure_rules-Keeps : (rs : List Rule) (t : Trace) → Keeps t (ensure_rules env rs t).1
    unfolding ensure_rules
    ensure_rules-Keeps [] t x h = h
    ensure_rules-Keeps (r ∷ rs) t x h =
        continue_inv (λ u. has_rule x (rules u) ≡ true) (ensure_iptables_rule env r t)
          (λ _. ensure_rules env rs) ((ensure-Step r t).0 x h)
          (λ _ u _ k. ensure_rules-Keeps rs u x k)

    -- Success means that every rule of the list is in place.
    pub ensure_rules-AllIn :
        (rs : List Rule) (t : Trace)
        → (ensure_rules env rs t).0 ≡ ok tt
        → AllIn rs (rules (ensure_rules env rs t).1)
    unfolding ensure_rules
    ensure_rules-AllIn [] t h = tt
    ensure_rules-AllIn (r ∷ rs) t h =
        let (a, u, e, later, same) =
          continue-ok (ensure_iptables_rule env r t) (λ _. ensure_rules env rs) h in
        let first : has_rule r (rules u) ≡ true =
          subst (λ out. has_rule r (rules out.1) ≡ true) e
            ((ensure-Step r t).1 (ap (λ out. out.0) e)) in
        rw same (ensure_rules-Keeps rs u r first, ensure_rules-AllIn rs u later)

    -- With all of them in place nothing is added, whatever the answers.
    pub ensure_rules-idle :
        (rs : List Rule) (t : Trace)
        → AllIn rs (rules t)
        → rules (ensure_rules env rs t).1 ≡ rules t
    unfolding ensure_rules
    ensure_rules-idle [] t h = refl
    ensure_rules-idle (r ∷ rs) t (h, hs) =
        let first = (ensure-Step r t).2 h in
        continue_inv (λ u. rules u ≡ rules t) (ensure_iptables_rule env r t)
          (λ _. ensure_rules env rs) first (λ _ u _ k. ensure_rules-idle rs u (rw k hs) ∙ k)
