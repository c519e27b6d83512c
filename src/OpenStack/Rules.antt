-- ===== src/OpenStack/Rules.antt =====
-- What becomes of the rules of a cloud that does what it is asked to.
use text.Mathlib.TextEquality.{eq_iff}
use mathlib.Core.Option.{some-injective}
use dynamictorque.Base.{
  ℕ, zero, suc, ◌+◌, ◌≡◌, refl, ap, ◌∙◌, arith, String, Bool, true, false, not, some, List, [], ◌∷◌,
  ◌++◌, any, find, filter, map, All, All-imp, str_eq, inl, inr, Bool-cases, if◌then◌else◌,
}
use dynamictorque.Base.Dict.{lookup}
use dynamictorque.Base.Action.{ok}
use dynamictorque.OpenStack.{OpenStackCloud, Calls, connect, credentials, open_connection}
use dynamictorque.OpenStack.Client.{
  Nova, Rule, SecurityGroup, Call, Credentials, connected, slept, listed_groups, created_rule,
  deleted_rule,
}
use dynamictorque.OpenStack.Firewall.{
  is_rule, group_named, the_group, add_security_group_rule, remove_security_group_rule,
}

-- The rule that `security_group_rules.create` makes.
abbrev new_rule : (id : String) (from_port to_port : ℕ) (cidr : String) → Rule
new_rule id from_port to_port cidr = record {
  id = id;
  from_port = from_port;
  to_port = to_port;
  ip_range = ("cidr", cidr) ∷ [];
}

abbrev with_rule : String → Rule → SecurityGroup → SecurityGroup
with_rule group rule sg =
    if str_eq sg.id group then record sg { rules = sg.rules ++ (rule ∷ []) } else sg

abbrev without : String → SecurityGroup → SecurityGroup
without id sg = record sg { rules = filter (λ rule. not (str_eq rule.id id)) sg.rules }

-- The groups after a call, where a rule that is made gets the given id.
unfoldable pub after : String → Call → List SecurityGroup → List SecurityGroup
after id (created_rule group protocol from_port to_port cidr) groups =
    map (with_rule group (new_rule id from_port to_port cidr)) groups
after id (deleted_rule rule) groups = map (without rule) groups
after id _ groups = groups

-- A cloud whose list of groups follows the calls; `new_id` is the id that a new rule gets.
pub record ListsRules (nova : Nova) : Type 0 where
  pub new_id : Calls → String
  pub follows :
      (c : Call) (calls : Calls) (groups : List SecurityGroup)
      → nova.list_groups calls ≡ some groups
      → nova.list_groups (c ∷ calls) ≡ some (after (new_id calls) c groups)

str_eq_refl : (a : String) → str_eq a a ≡ true
str_eq_refl a = (eq_iff a a).1 refl

find-map :
    {A : Type 0} (p : A → Bool) (f : A → A)
    → ((a : A) → p (f a) ≡ p a)
    → (xs : List A) (a : A) → find p xs ≡ some a
    → find p (map f xs) ≡ some (f a)
find-map p f same [] a h = cc
find-map p f same (x ∷ xs) a h = elim (Bool-cases (p x)) [
  | inl e ↦ rw (same x, e) (ap some (ap f (some-injective x a (rw e at h))))
  | inr e ↦ rw (same x, e) (find-map p f same xs a (rw e at h))
]

-- A search that nothing before met.
find_last :
    {A : Type 0} (p : A → Bool) (xs : List A) (a : A)
    → any p xs ≡ false
    → p a ≡ true
    → find p (xs ++ (a ∷ [])) ≡ some a
find_last p [] a h k = rw k refl
find_last p (x ∷ xs) a h k = elim (Bool-cases (p x)) [
  | inl e ↦ ground (arith, e, h)
  | inr e ↦ rw e (find_last p xs a (rw e at h) k)
]

-- The rules without one that is not among them, and without one that was added.
filter_all : {A : Type 0} (p : A → Bool) (xs : List A) → All (λ a. p a ≡ true) xs → filter p xs ≡ xs
filter_all p [] h = refl
filter_all p (x ∷ xs) h = rw h.0 (ap (λ l. x ∷ l) (filter_all p xs h.1))

filter_last :
    {A : Type 0} (p : A → Bool) (xs : List A) (a : A)
    → All (λ a. p a ≡ true) xs
    → p a ≡ false
    → filter p (xs ++ (a ∷ [])) ≡ xs
filter_last p [] a h k = rw k refl
filter_last p (x ∷ xs) a h k = rw h.0 (ap (λ l. x ∷ l) (filter_last p xs a h.1 k))

-- A rule that is made and taken out again leaves no trace.
without-with_rule :
    (group : String) (rule : Rule) (sg : SecurityGroup)
    → All (λ r. str_eq r.id rule.id ≡ false) sg.rules
    → without rule.id (with_rule group rule sg) ≡ sg
without-with_rule group rule sg h =
    let others = All-imp (λ r e. ap not e) sg.rules h in
    elim (Bool-cases (str_eq sg.id group)) [
      | inl e ↦ rw e (
          ap (λ rules. record sg { rules = rules })
            (filter_last (λ r. not (str_eq r.id rule.id)) sg.rules rule others
              (ap not (str_eq_refl rule.id))))
      | inr e ↦ rw e (
          ap (λ rules. record sg { rules = rules })
            (filter_all (λ r. not (str_eq r.id rule.id)) sg.rules others))
    ]

withouts :
    (group : String) (rule : Rule) (groups : List SecurityGroup)
    → All (λ sg. All (λ r. str_eq r.id rule.id ≡ false) sg.rules) groups
    → map (without rule.id) (map (with_rule group rule) groups) ≡ groups
withouts group rule [] h = refl
withouts group rule (sg ∷ groups) h =
    λ i. without-with_rule group rule sg h.0 i ∷ withouts group rule groups h.1 i

new_rule-is_rule :
    (id : String) (from_port to_port : ℕ) (cidr : String)
    → is_rule cidr from_port to_port (new_rule id from_port to_port cidr) ≡ true
unfolding lookup
new_rule-is_rule id from_port to_port cidr = ground (arith, str_eq_refl cidr)

any_last :
    {A : Type 0} (p : A → Bool) (xs : List A) (a : A) → p a ≡ true → any p (xs ++ (a ∷ [])) ≡ true
any_last p [] a k = rw k refl
any_last p (x ∷ xs) a k = ground (arith, any_last p xs a k)

with_rule_name :
    (group : String) (rule : Rule) (sg : SecurityGroup) → (with_rule group rule sg).name ≡ sg.name
with_rule_name group rule sg = elim (Bool-cases (str_eq sg.id group)) [
  | inl e ↦ rw e refl
  | inr e ↦ rw e refl
]

-- The group of a name after a rule was added to it.
group_named-with_rule :
    (name : String) (rule : Rule) (groups : List SecurityGroup) (sg : SecurityGroup)
    → group_named name groups ≡ some sg
    → group_named name (map (with_rule sg.id rule) groups)
      ≡ some (record sg { rules = sg.rules ++ (rule ∷ []) })
group_named-with_rule name rule groups sg h =
    find-map (λ x. str_eq x.name name) (with_rule sg.id rule)
      (λ x. ap (λ n. str_eq n name) (with_rule_name sg.id rule x)) groups sg h
    ∙ ap some (rw (str_eq_refl sg.id) refl)

module _ (nova : Nova) (lists : ListsRules nova) (groups : List SecurityGroup) where
  -- The groups are these.
  abbrev Lists : Calls → Type 0
  Lists calls = nova.list_groups calls ≡ some groups

  connect-Lists :
      (c : Credentials) (n sleep_time : ℕ) (calls : Calls)
      → Lists calls
      → (calls' : Calls) × (connect c n sleep_time calls ≡ (ok tt, calls')) × Lists calls'
  unfolding connect after
  connect-Lists c zero sleep_time calls h =
      (connected c ∷ calls, refl, lists.follows (connected c) calls groups h)
  connect-Lists c (suc n) sleep_time calls h =
      connect-Lists c n (sleep_time + 5) (slept (sleep_time + 5) ∷ calls)
        (lists.follows (slept (sleep_time + 5)) calls groups h)

  module _ (self : OpenStackCloud) (res sg_name protocol cidr : String) (from_port to_port : ℕ)
      (configured : (c : Credentials) × (credentials self (some res) ≡ ok c)) where
    the_group-Lists :
        (calls : Calls)
        → Lists calls
        → (calls' : Calls) × (the_group nova self res sg_name protocol cidr from_port to_port calls
            ≡ (ok (group_named sg_name groups), calls'))
          × Lists calls'
    unfolding open_connection after
    the_group-Lists calls h =
        let (c, e) = configured in
        let (calls', f, k) = connect-Lists c (nova.failures calls c) 5 calls h in
        (listed_groups ∷ calls', rw (e, f, k) refl, lists.follows listed_groups calls' groups k)

    -- The steps of `add_security_group_rule` for a rule that is not there.
    added :
        (calls : Calls) (sg : SecurityGroup)
        → Lists calls
        → group_named sg_name groups ≡ some sg
        → any (is_rule cidr from_port to_port) sg.rules ≡ false
        → (calls' : Calls) × (add_security_group_rule nova self res sg_name protocol cidr from_port
              to_port calls
            ≡ (ok tt, created_rule sg.id protocol from_port to_port cidr ∷ calls'))
          × Lists calls'
    unfolding add_security_group_rule
    added calls sg h named none_yet =
        let (calls', e, k) = the_group-Lists calls h in (calls', rw (e, named, none_yet) refl, k)

    -- The steps of `remove_security_group_rule` for the first rule that matches.
    removed :
        (calls : Calls) (sg : SecurityGroup) (rule : Rule)
        → Lists calls
        → group_named sg_name groups ≡ some sg
        → find (is_rule cidr from_port to_port) sg.rules ≡ some rule
        → nova.list_groups
            (remove_security_group_rule nova self res sg_name protocol cidr from_port to_port
              calls).1
          ≡ some (map (without rule.id) groups)
    unfolding remove_security_group_rule after
    removed calls sg rule h named there =
        let (calls', e, k) = the_group-Lists calls h in
        rw (e, named, there) (lists.follows (deleted_rule rule.id) calls' groups k)

-- On a cloud that does what it is asked to and on a resource that is configured, let the security
-- group be there without the rule, and no rule that is there have the id that a new one gets. Then
-- `add_security_group_rule` puts a rule into the group that the test for the rule finds, and
-- `remove_security_group_rule` after it gives back the groups as they were.
pub remove_security_group_rule-add_security_group_rule :
    (nova : Nova) (lists : ListsRules nova) (self : OpenStackCloud)
    (res sg_name protocol cidr : String) (from_port to_port : ℕ) (calls : Calls)
    (groups : List SecurityGroup) (sg : SecurityGroup)
    → ((c : Credentials) × (credentials self (some res) ≡ ok c))
    → ((calls' : Calls)
        → nova.list_groups calls' ≡ some groups
        → All (λ sg. All (λ rule. str_eq rule.id (lists.new_id calls') ≡ false) sg.rules) groups)
    → nova.list_groups calls ≡ some groups
    → group_named sg_name groups ≡ some sg
    → any (is_rule cidr from_port to_port) sg.rules ≡ false
    → (let opened =
          (add_security_group_rule nova self res sg_name protocol cidr from_port to_port calls).1 in
        ((groups' : List SecurityGroup) × (sg' : SecurityGroup) × (nova.list_groups opened
            ≡ some groups')
          × (group_named sg_name groups' ≡ some sg')
          × (any (is_rule cidr from_port to_port) sg'.rules ≡ true))
        × (nova.list_groups
              (remove_security_group_rule nova self res sg_name protocol cidr from_port to_port
                opened).1
            ≡ some groups))
unfolding after
remove_security_group_rule-add_security_group_rule nova lists self res sg_name protocol cidr
      from_port to_port calls groups sg configured is_new h named none_yet =
    let (calls', e, k) =
      added nova lists groups self res sg_name protocol cidr from_port to_port configured calls sg h
        named none_yet in
    let c = created_rule sg.id protocol from_port to_port cidr in
    let rule = new_rule (lists.new_id calls') from_port to_port cidr in
    let groups' = map (with_rule sg.id rule) groups in
    let there = lists.follows c calls' groups k in
    let is_it = new_rule-is_rule (lists.new_id calls') from_port to_port cidr in
    let sg' = record sg { rules = sg.rules ++ (rule ∷ []) } in
    let named' : group_named sg_name groups' ≡ some sg' =
      group_named-with_rule sg_name rule groups sg named in
    (
      (
        groups',
        sg',
        rw e there,
        named',
        any_last (is_rule cidr from_port to_port) sg.rules rule is_it,
      ),
      rw e (
          removed nova lists groups' self res sg_name protocol cidr from_port to_port configured
            (c ∷ calls') sg' rule there named'
            (find_last (is_rule cidr from_port to_port) sg.rules rule none_yet is_it)
          ∙ ap some (withouts sg.id rule groups (is_new calls' k))),
    )
