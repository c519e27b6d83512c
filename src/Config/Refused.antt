-- ===== src/Config/Refused.antt =====
-- Which configuration files are refused.
use mathlib.Core.Path.{subst}
use dynamictorque.Base.{◌≡◌, refl, sym, String, Option, none, some, inl, inr, Option-cases}
use dynamictorque.Base.Dict.{Dict}
use dynamictorque.Base.Maintained.{
  Maintains, bind-Maintains, then-Maintains, or_raise-Maintains, modify-Maintains,
}
use dynamictorque.Base.Action.{
  Action, Result, ok, err, Error, name_error, and_then, value_error, modify, or_raise, ◌>>=◌, ◌>>◌,
}
use dynamictorque.CloudTools.{CloudResource}
use dynamictorque.Config.File.{File, Parser, option, read_text, read_number}
use dynamictorque.Config.Setup.{
  Settings, add_default, read_global, read_commands, read_cloud, read_torque, read_settings, setup,
  set_flavors, set_statics, find_path, read_static,
}

module _ {I : Settings → Type 0} (file : File) (section name : String) where
  read_text-Maintains :
      (put : String → Settings → Settings)
      → ((v : String) (s : Settings) → option file section name ≡ some v → I s → I (put v s))
      → Maintains I (read_text file section name put)
  read_text-Maintains put h = record {
    keeps = λ s k. elim (Option-cases (option file section name)) [
      | inl e ↦ rw e k
      | inr (v, e) ↦ rw e (h v s e k)
    ];
  }

  read_number-Maintains :
      {A : Type 0} (convert : String → Option A) (put : A → Settings → Settings)
      → ((n : A) (s : Settings) → I s → I (put n s))
      → Maintains I (read_number file section name convert put)
  read_number-Maintains convert put h = record {
    keeps = λ s k. elim (Option-cases (option file section name)) [
      | inl e ↦ rw e k
      | inr (v, e) ↦
          let stored : Maintains I (or_raise (convert v) value_error >>= (λ n. modify (put n))) =
            bind-Maintains (or_raise-Maintains (convert v) value_error)
              (λ n. modify-Maintains (put n) (h n)) in
          rw e (stored.keeps s k)
    ];
  }

-- The call raised, and left the resources `rs`.
abbrev pub Refused : Dict CloudResource → Result Unit × Settings → Type 0
Refused rs (r, s) = ((e : Error) × (r ≡ err e)) × (s.config.cloud_resources ≡ rs)

module _ (rs : Dict CloudResource) (parser : Parser) (file : File) where
  -- The names of the flavors are not set, and no resource is added.
  abbrev Unset : Settings → Type 0
  Unset s = (s.worker_node_flavors ≡ none) × (s.config.cloud_resources ≡ rs)

  read_global-Unset : Maintains Unset (read_global parser file)
  unfolding read_global
  read_global-Unset =
      then-Maintains
        (read_number-Maintains file "global" "pool_min_num" parser.to_nat _ (λ v s h. h))
        (then-Maintains
          (read_number-Maintains file "global" "pool_max_num" parser.to_nat _ (λ v s h. h))
          (then-Maintains
            (read_number-Maintains file "global" "max_idle_time" parser.to_nat _ (λ v s h. h))
            (then-Maintains
              (read_number-Maintains file "global" "max_down_time" parser.to_nat _ (λ v s h. h))
              (then-Maintains
                (read_number-Maintains file "global" "max_inaccessible_time" parser.to_nat _
                  (λ v s h. h))
                (then-Maintains
                  (read_number-Maintains file "global" "job_poller_interval" parser.to_nat _
                    (λ v s h. h))
                  (read_number-Maintains file "global" "cloud_poller_interval" parser.to_nat _
                    (λ v s h. h)))))))

  read_commands-Unset : Maintains Unset (read_commands parser file)
  unfolding read_commands
  read_commands-Unset =
      then-Maintains (read_text-Maintains file "global" "persistent_file_location" _ (λ v s e h. h))
        (then-Maintains (read_text-Maintains file "global" "post_add_node_command" _ (λ v s e h. h))
          (then-Maintains
            (read_text-Maintains file "global" "post_remove_node_command" _ (λ v s e h. h))
            (then-Maintains
              (read_text-Maintains file "global" "post_vm_provision_command" _ (λ v s e h. h))
              (then-Maintains
                (read_text-Maintains file "global" "post_vm_destroy_command" _ (λ v s e h. h))
                (then-Maintains (read_text-Maintains file "global" "qstat_command" _ (λ v s e h. h))
                  (then-Maintains
                    (read_text-Maintains file "global" "pbsnodes_command" _ (λ v s e h. h))
                    (then-Maintains
                      (read_text-Maintains file "global" "add_node_command" _ (λ v s e h. h))
                      (then-Maintains
                        (read_text-Maintains file "global" "check_node_command" _ (λ v s e h. h))
                        (then-Maintains
                          (read_text-Maintains file "global" "remove_node_command" _ (λ v s e h. h))
                          (then-Maintains
                            (read_text-Maintains file "global" "set_node_command" _ (λ v s e h. h))
                            (then-Maintains
                              (read_text-Maintains file "global" "diagnose_p_command" _
                                (λ v s e h. h))
                              (then-Maintains
                                (read_text-Maintains file "global" "setres_command" _
                                  (λ v s e h. h))
                                (read_text-Maintains file "global" "releaseres_command" _
                                  (λ v s e h. h))))))))))))))

  read_cloud-Unset :
      ((v : String) → option file "cloud" "worker_node_flavors" ≡ some v → v ≡ "")
      → Maintains Unset (read_cloud parser file)
  unfolding read_cloud
  read_cloud-Unset unnamed =
      then-Maintains (read_text-Maintains file "cloud" "cloud_username" _ (λ v s e h. h)) (
        then-Maintains (read_text-Maintains file "cloud" "cloud_password" _ (λ v s e h. h)) (
          then-Maintains (read_text-Maintains file "cloud" "cloud_tenant_name" _ (λ v s e h. h)) (
            then-Maintains (read_text-Maintains file "cloud" "cloud_auth_url" _ (λ v s e h. h)) (
              then-Maintains (read_text-Maintains file "cloud" "cloud_key_name" _ (λ v s e h. h)) (
                then-Maintains
                  (read_text-Maintains file "cloud" "cloud_security_groups" _ (λ v s e h. h))
                  (then-Maintains
                    (read_text-Maintains file "cloud" "cloud_private_key_location" _ (λ v s e h. h))
                    (then-Maintains
                      (read_text-Maintains file "cloud" "cloud_availability_zone" _ (λ v s e h. h))
                      (then-Maintains
                        (read_text-Maintains file "cloud" "cloud_vm_init_file" _ (λ v s e h. h))
                        (then-Maintains
                          (read_text-Maintains file "cloud" "cloud_vm_userdata_file" _
                            (λ v s e h. h))
                          (then-Maintains
                            (read_text-Maintains file "cloud" "cloud_image_uuid" _ (λ v s e h. h))
                            (then-Maintains
                              (read_text-Maintains file "cloud" "cloud_vm_prefix" _ (λ v s e h. h))
                              (then-Maintains
                                (read_text-Maintains file "cloud" "worker_node_flavors" set_flavors
                                  (λ v s e h. rw (unnamed v e) h))
                                (then-Maintains
                                  (read_text-Maintains file "cloud" "cloud_vm_init_finish_file" _
                                    (λ v s e h. h))
                                  (then-Maintains
                                    (read_number-Maintains file "cloud"
                                      "number_of_dynamic_worker_nodes" parser.to_nat _ (λ v s h. h))
                                    (read_text-Maintains file "cloud" "cloud_shell_user" _
                                      (λ v s e h. h))))))))))))))))

  statics-Unset : (nodes : Option String) (s : Settings) → Unset s → Unset (set_statics nodes s)
  statics-Unset none s h = h
  statics-Unset (some nodes) s h = h

  read_static-Unset : Maintains Unset (read_static parser file)
  read_static-Unset =
      modify-Maintains (set_statics (option file "cloud" "static_worker_nodes"))
        (statics-Unset (option file "cloud" "static_worker_nodes"))

  read_torque-Unset : Maintains Unset (read_torque parser file)
  unfolding read_torque
  read_torque-Unset =
      then-Maintains (read_text-Maintains file "torque" "torque_queue_to_monitor" _ (λ v s e h. h))
        (then-Maintains (read_text-Maintains file "torque" "node_property" _ (λ v s e h. h)) (
          then-Maintains
            (read_text-Maintains file "torque" "node_location_property" _ (λ v s e h. h))
            (then-Maintains
              (read_number-Maintains file "torque" "max_number_of_jobs" parser.to_int _
                (λ v s h. h))
              (then-Maintains (read_static-Unset) (
                read_number-Maintains file "torque" "default_location" parser.to_nat _
                  (λ v s h. h))))))

  then-Refused :
      (x : Result Unit × Settings) (k : Action Settings Unit)
      → Unset x.1
      → ((t : Settings) → Unset t → Refused rs (k t))
      → Refused rs (and_then x (λ _. k))
  then-Refused (ok u, t) k h f = f t h
  then-Refused (err e, t) k h f = ((e, refl), h.1)

  add_default-Refused :
      (k : Action Settings Unit) (s : Settings) → Unset s → Refused rs ((add_default >> k) s)
  unfolding add_default
  add_default-Refused k s h = rw h.0 ((name_error, refl), h.1)

  read_settings-Refused :
      ((v : String) → option file "cloud" "worker_node_flavors" ≡ some v → v ≡ "")
      → (s : Settings) → Unset s
      → Refused rs (read_settings parser file s)
  unfolding read_settings
  read_settings-Refused unnamed s h =
      then-Refused (read_global parser file s) _ (read_global-Unset.keeps s h) (λ t h.
        then-Refused (read_commands parser file t) _ (read_commands-Unset.keeps t h) (λ t h.
          then-Refused (read_cloud parser file t) _ ((read_cloud-Unset unnamed).keeps t h) (λ t h.
            then-Refused (read_torque parser file t) _ (read_torque-Unset.keeps t h)
              (λ t h. add_default-Refused _ t h))))

-- A configuration file that does not name `worker_node_flavors`, or leaves them empty, is refused:
-- `setup` raises, and has added no resource by then, although the module has a default flavor.
pub setup-Refused :
    (parser : Parser) (path : Option String) (location : String) (file : File) (s : Settings)
    → find_path parser path ≡ ok location
    → parser.parse location ≡ ok file
    → ((v : String) → option file "cloud" "worker_node_flavors" ≡ some v → v ≡ "")
    → s.worker_node_flavors ≡ none
    → Refused s.config.cloud_resources (setup parser path s)
unfolding setup
setup-Refused parser path location file s found parsed unnamed unset =
    let start : setup parser path s ≡ read_settings parser file s = rw (found, parsed) refl in
    subst (Refused s.config.cloud_resources) (sym start)
      (read_settings-Refused s.config.cloud_resources parser file unnamed s (unset, refl))
