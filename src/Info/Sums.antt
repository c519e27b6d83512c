-- ===== src/Info/Sums.antt =====
-- The statistics add up.
use mathlib.Core.Path.{subst}
use mathlib.Core.Option.{some-injective}
use dynamictorque.Base.{
  ℕ, ◌+◌, ◌≡◌, refl, arith, String, Bool, not, Option, none, some, List, [], ◌∷◌, inl, inr,
  Bool-cases, Option-cases, sum_of, opt_str_eq, str_eq, to_number,
}
use dynamictorque.Base.Action.{for_each-Keeps, value_error}
use dynamictorque.Base.Maintained.{
  Maintains, bind-Maintains, if-Maintains, or_raise-Maintains, modify-Maintains, pure-Maintains,
}
use dynamictorque.CloudTools.{Vm}
use dynamictorque.World.{text, number}
use dynamictorque.Info.{
  CenterInfo, Stat, add_cores, tally, cores, cores_if, pbs_cores, Data, data_of, fetch_info, Plugin,
  configure, configure_callback,
}

-- All the cores of a statistic.
abbrev pub total : Stat → ℕ
total stat = sum_of (λ e. e.1) stat

total-add_cores :
    (key : Option String) (n : ℕ) (stat : Stat) → total (add_cores key n stat) ≡ total stat + n
total-add_cores key n [] = omega arith
total-add_cores key n ((k, m) ∷ stat) = elim (Bool-cases (opt_str_eq k key)) [
  | inl e ↦ rw e (omega arith)
  | inr e ↦ rw e (omega (arith, total-add_cores key n stat))
]

total-tally :
    (key : Vm → Option String) (vms : List Vm) (stat : Stat)
    → total (tally key vms stat) ≡ total stat + cores vms
unfolding tally
total-tally key [] stat = omega arith
total-tally key (vm ∷ vms) stat = omega (
  arith,
  total-tally key vms (add_cores (key vm) vm.vcpu_number stat),
  total-add_cores (key vm) vm.vcpu_number stat,
)

cores-cores_if :
    (p : Vm → Bool) (vms : List Vm) → cores_if p vms + cores_if (λ vm. not (p vm)) vms ≡ cores vms
cores-cores_if p [] = refl
cores-cores_if p (vm ∷ vms) = elim (Bool-cases (p vm)) [
  | inl e ↦ rw e (omega (arith, cores-cores_if p vms))
  | inr e ↦ rw e (omega (arith, cores-cores_if p vms))
]

-- The parts of the statistics add up.
pub record AddsUp (data' : Data) : Type 0 where
  pub by_kind : data'.active_dynamic_cores + data'.active_static_cores ≡ data'.active_cores
  pub by_state :
      data'.active_cores + data'.deleting_cores + data'.starting_cores ≡ data'.total_cloud_cores
  pub by_zone : total data'.zone_stat ≡ data'.active_cores
  pub by_tenant : total data'.tenant_stat ≡ data'.active_cores

pub none_not_some : {A : Type 0} {a : A} → ¬ (none ≡ some a)
none_not_some h = cc

data_of-AddsUp : (info : CenterInfo) (np : ℕ) → AddsUp (data_of info np)
data_of-AddsUp info np = record {
  by_kind = cores-cores_if (λ vm. vm.dynamic) info.existing_instances;
  by_state = refl;
  by_zone = omega (arith, total-tally (λ vm. vm.availability_zone) info.existing_instances []);
  by_tenant =
      omega (arith, total-tally (λ vm. some vm.cloud_resource_name) info.existing_instances []);
}

-- Whatever the server answers, the statistics that `fetch_info` makes of it add up: the cores of
-- the dynamic and the static VMs, those of all zones, and those of all tenants are each the cores
-- of the existing VMs, and these are with those being deleted and started the total of the cloud.
pub fetch_info-AddsUp :
    (info : Option CenterInfo) (data' : Data) → fetch_info info ≡ some data' → AddsUp data'
unfolding fetch_info
fetch_info-AddsUp none data' h = cc
fetch_info-AddsUp (some info) data' h = elim (Option-cases (pbs_cores info.worker_nodes)) [
  | inl e ↦ absurd (none_not_some (rw (e, fetch_info) at h))
  | inr (np, e) ↦
      subst AddsUp (some-injective (data_of info np) data' (rw (e, fetch_info) at h))
        (data_of-AddsUp info np)
]

configure-Maintains :
    (host : String) (entry : String × String) → Maintains (λ p. p.hostname ≡ host) (configure entry)
unfolding configure
configure-Maintains host (key, value) =
    if-Maintains (str_eq key "Host")
      (modify-Maintains (λ p. record p { port = text value }) (λ p h. h))
      (if-Maintains (str_eq key "Port")
        (bind-Maintains (or_raise-Maintains (to_number value) value_error)
          (λ n. modify-Maintains (λ p. record p { port = number n }) (λ p h. h)))
        (if-Maintains (str_eq key "Verbose")
          (modify-Maintains (λ p. record p { verbose = not (str_eq value "") }) (λ p h. h))
          (pure-Maintains tt)))

-- No configuration of the plugin changes the host that it asks: `Host` sets the port.
pub configure_callback_host :
    (conf : List (String × String)) (p : Plugin)
    → (configure_callback conf p).1.hostname ≡ p.hostname
unfolding configure_callback
configure_callback_host conf p =
    for_each-Keeps (λ q. q.hostname ≡ p.hostname) configure
      (λ entry. (configure-Maintains p.hostname entry).keeps) conf p refl
