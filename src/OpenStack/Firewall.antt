-- ===== src/OpenStack/Firewall.antt =====
-- The rules of the security groups: `add_security_group_rule` and `remove_security_group_rule`. An
-- exception is only logged, so that both answer nothing.
use dynamictorque.Base.{
  ℕ, String, Bool, ◌&&◌, Option, none, some, List, ◌==◌, any, find, str_eq, opt_str_eq,
  if◌then◌else◌,
}
use dynamictorque.Base.Dict.{lookup}
use dynamictorque.Base.Action.{Action, pure, when_some, ◌>>=◌, ◌>>◌}
use dynamictorque.OpenStack.{OpenStackCloud, Calls, call, open_connection}
use dynamictorque.OpenStack.Client.{
  Nova, Rule, SecurityGroup, listed_groups, created_rule, deleted_rule,
}

-- The test of the two loops on the rules, which does not look at the protocol.
abbrev pub is_rule : (cidr : String) (from_port to_port : ℕ) → Rule → Bool
is_rule cidr from_port to_port rule =
    rule.from_port == from_port
    && (rule.to_port == to_port && opt_str_eq (lookup "cidr" rule.ip_range) (some cidr))

-- `the_sg`, the first group of the name
abbrev pub group_named : String → List SecurityGroup → Option SecurityGroup
group_named name groups = find (λ sg. str_eq sg.name name) groups

module _ (nova : Nova) (self : OpenStackCloud) (res sg_name protocol cidr : String)
    (from_port to_port : ℕ) where
  abbrev pub the_group : Action Calls (Option SecurityGroup)
  the_group = do
    open_connection nova self (some res)
    groups ← call listed_groups nova.list_groups
    pure (elim groups [ none ↦ none | some sg_list ↦ group_named sg_name sg_list ])

  abbrev pub add_to : SecurityGroup → Action Calls Unit
  add_to the_sg =
      if any (is_rule cidr from_port to_port) the_sg.rules
      then pure tt
      else call (created_rule the_sg.id protocol from_port to_port cidr) (λ _. tt)

  unfoldable pub add_security_group_rule : Action Calls Unit
  add_security_group_rule = do the_sg ← the_group; when_some the_sg add_to

  abbrev pub remove_from : SecurityGroup → Action Calls Unit
  remove_from the_sg =
      when_some (find (is_rule cidr from_port to_port) the_sg.rules)
        (λ the_rule. call (deleted_rule the_rule.id) (λ _. tt))

  unfoldable pub remove_security_group_rule : Action Calls Unit
  remove_security_group_rule = do the_sg ← the_group; when_some the_sg remove_from
