-- ===== src/Cloud.antt =====
-- The interface `ICloud` of dynamictorque/cloud_tools.py, which the resource center uses and
-- dynamictorque/openstack_cloud.py implements. `vm_check` answers 0 for a VM that is ready, 1
-- while it is configured, 2 while it is built, 3 when it is gone and 4 for an error, and brings
-- the VM's fields up to date. `vm_start` answers `none` if no VM could be created. What `vm_destroy`
-- answers is never read. These three may raise. `vm_list` answers the VMs of a resource; it is asked
-- about resources of the configuration only, for which it does not raise.
use dynamictorque.Base.{ℕ, String, Option, List}
use dynamictorque.CloudTools.{Vm, Flavor}
use dynamictorque.Base.Action.{Result}
use dynamictorque.World.{Trace}

pub record Cloud : Type 0 where
  pub vm_start : Trace → Flavor → Option String → String → Result (Option Vm)
  pub vm_destroy : Trace → Vm → Result Unit × Vm
  pub vm_check : Trace → Vm → Result ℕ × Vm
  pub vm_list : Trace → String → List Vm
