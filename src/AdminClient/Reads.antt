-- ===== src/AdminClient/Reads.antt =====
-- The commands of the client that only read.
use Prim.Native.String.{◌++◌ as ◌<>◌}
use dynamictorque.Base.{
  ℕ, zero, suc, ◌≡◌, refl, String, false, Option, none, some, List, [], ◌∷◌, ◌++◌, ◌+◌, str_eq,
  to_number,
}
use dynamictorque.Base.Dict.{lookup}
use dynamictorque.Base.Action.{
  Action, Result, ok, err, exception, pure, Post-both, Post-imp, key_error, value_error, type_error,
  Error, ◌>>◌,
}
use dynamictorque.Base.Maintained.{
  Maintains, bind-Maintains, then-Maintains, if-Maintains, for_each-Maintains, fold_each-Maintains,
  answer-Maintains, or_raise-Maintains, pure-Maintains, gets-Maintains,
}
use dynamictorque.CloudTools.{Vm}
use dynamictorque.World.{World}
use dynamictorque.Commands.{Node, node_named}
use dynamictorque.Cloud.{Cloud}
use dynamictorque.Center.State.{Center}
use dynamictorque.Center.Admin.{find_vm, get_detail}
use dynamictorque.Info.{CenterInfo, get_info, tally}
use dynamictorque.AdminClient.Console.{Terminal}
use dynamictorque.AdminClient.Usage.{print_info}
use dynamictorque.AdminClient.Exits.{
  Is, print-Maintains, rpc-Maintains, ask-Maintains, print_info-Fails, Fails, Failed,
}
use dynamictorque.AdminClient.{
  Options, main, command, exit_code, given, show_info, watch_info, value,
}
use dynamictorque.AdminClient.Shows.{
  Introspection, show_detail, show_methods, show_list, show_listnew, show_ganglia, detail_of,
  vm_and_node, show_ip, list_vm, list_address, properties_of, is_other, add_np, add_zone, metrics,
  show_zones,
}

module _ (c : Center) where
  vm_and_node-Maintains : (rn : ℕ × Node) → Maintains (λ s. s ≡ c) (vm_and_node rn)
  vm_and_node-Maintains (r, node) =
      bind-Maintains (answer-Maintains (λ s. ok (s.heap r))) (λ vm. pure-Maintains (vm, node))

  get_detail-Maintains : (name : String) → Maintains (λ s. s ≡ c) (get_detail name)
  unfolding get_detail
  get_detail-Maintains name = bind-Maintains (gets-Maintains (find_vm name)) (λ found.
      bind-Maintains (or_raise-Maintains found (exception (name <> " not found in vm list"))) (λ r.
        bind-Maintains (answer-Maintains (λ s. ok (s.heap r))) (λ vm.
          bind-Maintains (answer-Maintains (λ s. node_named vm.hostname s.worker_nodes)) (λ wn.
            bind-Maintains (or_raise-Maintains wn (exception (name <> " is not a worker node")))
              (λ node. pure-Maintains (r, node))))))

  detail-Maintains : (name : String) → Maintains (λ s. s ≡ c) (detail_of name)
  detail-Maintains name = bind-Maintains (get_detail-Maintains name) vm_and_node-Maintains

  print_info-Maintains : Maintains (Is c) print_info
  unfolding Fails Failed
  print_info-Maintains = record {
    keeps = λ t h. Post-both (Is c) (print_info t) (
        Post-imp (λ _ _. ⊥) (λ _. Is c) (Is c) (Is c) (print_info t) (λ _ _ e. absurd e) (λ _ k. k)
          (print_info-Fails c t h));
  }

  watch-Maintains : (seconds : String) (n : ℕ) → Maintains (Is c) (watch_info seconds n)
  unfolding watch_info
  watch-Maintains seconds zero = then-Maintains (print-Maintains c _) (pure-Maintains 0)
  watch-Maintains seconds (suc n) =
      then-Maintains print_info-Maintains
        (then-Maintains (or_raise-Maintains _ _) (watch-Maintains seconds n))

  show_info-Maintains :
      (continuous : Option String) (n : ℕ) → Maintains (Is c) (show_info continuous n)
  unfolding show_info
  show_info-Maintains none n = then-Maintains print_info-Maintains (pure-Maintains 0)
  show_info-Maintains (some seconds) n =
      if-Maintains (str_eq seconds "") (then-Maintains print_info-Maintains (pure-Maintains 0))
        (watch-Maintains seconds n)

  show_detail-Maintains : (name : String) → Maintains (Is c) (show_detail name)
  unfolding show_detail
  show_detail-Maintains name =
      bind-Maintains (rpc-Maintains c _ (detail-Maintains name).keeps) (λ found.
        then-Maintains (print-Maintains c _) (
          then-Maintains (for_each-Maintains _ (λ (a, b). print-Maintains c _)) (
            then-Maintains (print-Maintains c _)
              (for_each-Maintains _ (λ (a, b). print-Maintains c _)))))

  show_methods-Maintains : (server : Introspection) → Maintains (Is c) (show_methods server)
  unfolding show_methods
  show_methods-Maintains server = bind-Maintains (rpc-Maintains c _ (λ s h. h)) (λ methods.
      then-Maintains (print-Maintains c _) (
        for_each-Maintains methods
          (λ method. then-Maintains (print-Maintains c _) (print-Maintains c _))))

  properties_of-Maintains : (node : Option Node) → Maintains (Is c) (properties_of node)
  properties_of-Maintains none = pure-Maintains ""
  properties_of-Maintains (some node) = or_raise-Maintains (lookup "properties" node) key_error

  list_vm-Maintains : (nodes : List Node) (vm : Vm) → Maintains (Is c) (list_vm nodes vm)
  list_vm-Maintains nodes vm =
      bind-Maintains (answer-Maintains (λ _. node_named vm.hostname nodes))
        (λ node. bind-Maintains (properties_of-Maintains node) (λ property. print-Maintains c _))

  show_list-Maintains : Maintains (Is c) show_list
  unfolding show_list
  show_list-Maintains =
      bind-Maintains (ask-Maintains c get_info)
        (λ info. for_each-Maintains info.existing_instances (list_vm-Maintains info.worker_nodes))

  show_ip-Maintains : (ip : Option String) → Maintains (Is c) (show_ip ip)
  show_ip-Maintains none = pure-Maintains tt
  show_ip-Maintains (some ip) = print-Maintains c _

  list_address-Maintains :
      (tenant : Option String) (vm : Vm) → Maintains (Is c) (list_address tenant vm)
  list_address-Maintains tenant vm =
      if-Maintains (is_other tenant vm) (pure-Maintains tt) (show_ip-Maintains vm.ip)

  show_listnew-Maintains : (tenant : Option String) → Maintains (Is c) (show_listnew tenant)
  unfolding show_listnew
  show_listnew-Maintains tenant = bind-Maintains (ask-Maintains c get_info) (λ info.
      then-Maintains (for_each-Maintains info.existing_instances (list_address-Maintains tenant))
        (for_each-Maintains info.starting_instances (list_address-Maintains tenant)))

  add_np-Maintains : (n : ℕ) (node : Node) → Maintains (Is c) (add_np n node)
  add_np-Maintains n node = bind-Maintains (or_raise-Maintains (lookup "np" node) key_error) (λ np.
      bind-Maintains (or_raise-Maintains (to_number np) value_error) (λ k. pure-Maintains (n + k)))

  add_zone-Maintains :
      (zones : List (String × ℕ)) (zone : Option String × ℕ)
      → Maintains (Is c) (add_zone zones zone)
  add_zone-Maintains zones (none, n) = answer-Maintains (λ _. err type_error)
  add_zone-Maintains zones (some zone, n) = pure-Maintains (zones ++ ((zone, n) ∷ []))

  show_zones-Maintains : (info : CenterInfo) → Maintains (Is c) (show_zones info)
  unfolding show_zones
  show_zones-Maintains info =
      bind-Maintains
        (fold_each-Maintains (tally _ info.existing_instances []) [] add_zone-Maintains)
        (λ zones. print-Maintains c _)

  show_ganglia-Maintains : Maintains (Is c) show_ganglia
  unfolding show_ganglia
  show_ganglia-Maintains = bind-Maintains (ask-Maintains c get_info) (λ info.
      bind-Maintains (fold_each-Maintains info.worker_nodes 0 add_np-Maintains) (λ np.
        then-Maintains (for_each-Maintains (metrics info np) (λ m. print-Maintains c _))
          (show_zones-Maintains info)))

module _ (w : World) (cloud : Cloud) (str : Error → String) (server : Introspection)
    (rounds : ℕ) where
  answers :
      (c : Center) {m : Action Terminal Unit}
      → Maintains (Is c) m
      → Maintains (Is c) (m >> pure {A = ℕ} 0)
  answers c h = then-Maintains h (pure-Maintains 0)

  command-Maintains :
      (c : Center) (o : Options)
      → given o.kill ≡ false
      → o.forceoff ≡ false
      → o.sleep ≡ false
      → Maintains (Is c) (command w cloud str server rounds o)
  unfolding command
  command-Maintains c o k f z =
      rw (k, f, z)
        (if-Maintains o.info (show_info-Maintains c o.continuous rounds) (
          if-Maintains (given o.detail) (answers c (show_detail-Maintains c (value o.detail))) (
            if-Maintains o.method (answers c (show_methods-Maintains c server)) (
              if-Maintains o.list (answers c (show_list-Maintains c)) (
                if-Maintains o.listnew (answers c (show_listnew-Maintains c o.tenant)) (
                  if-Maintains o.ganglia (answers c (show_ganglia-Maintains c))
                    (answers c (print-Maintains c _))))))))

  exit_code-Is : (c : Center) (r : Result ℕ × Terminal) → Is c (r.1) → Is c (exit_code r).1
  exit_code-Is c (ok n, t) h = h
  exit_code-Is c (err e, t) h = h

  -- Unless a kill, the forced shutdown or the sleep mode is asked for, the client leaves the
  -- resource center as it was, however it exits.
  pub main-Reads :
      (o : Options) (t : Terminal)
      → given o.kill ≡ false
      → o.forceoff ≡ false
      → o.sleep ≡ false
      → (main w cloud str server rounds o t).1.center ≡ t.center
  unfolding main
  main-Reads o t k f z = exit_code-Is t.center _ ((command-Maintains t.center o k f z).keeps t refl)
