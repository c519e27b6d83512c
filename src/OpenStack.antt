-- ===== src/OpenStack.antt =====
-- The class `OpenStackCloud` of dynamictorque/openstack_cloud.py, and `get_unique_string` of
-- dynamictorque/utilities.py. A method is an action on the calls that were made, the newest first,
-- and those that change a VM are actions on the VM too.
pub mod Client
pub mod Backend
pub mod States
pub mod Laws
pub mod Joint
pub mod Firewall
pub mod Rules
use Prim.Native.String.{◌++◌ as ◌<>◌}
use dynamictorque.Base.{
  ℕ, zero, suc, ◌+◌, String, Bool, true, false, not, ◌&&◌, ◌||◌, Option, none, some, List, [], ◌∷◌,
  ◌++◌, ltb, leb, ◌==◌, map, str_eq, filter, if◌then◌else◌,
}
use dynamictorque.Base.Dict.{Dict, lookup}
use dynamictorque.Base.Action.{
  Action, Result, ok, err, Error, key_error, index_error, exception, pure, raise, gets, or_raise,
  from_result, modify, fold_each, for_each, when_some, ◌>>=◌, ◌>>◌,
}
use dynamictorque.CloudTools.{Vm, VmFlavor, Flavor, flavor_id, flavor_object, CloudResource, new_vm}
use dynamictorque.OpenStack.Client.{
  OsFlavor, Server, Credentials, Call, Answer, found, not_found, failed, Nova, Machine, slept,
  connected, got_server, deleted_server, got_flavor, listed_servers, created_server, listed_flavors,
  reached,
}

-- The fields that the methods read. `cloud_resources` is the dict of dynamictorque/config.py.
pub record OpenStackCloud : Type 0 where
  pub vm_prefix : String
  pub default_availability_zone : String
  pub username : String
  pub password : String
  pub tenant_name : String
  pub cloud_resources : Dict CloudResource

pub record Session : Type 0 where
  pub calls : List Call
  pub vm : Vm

abbrev pub Calls : Type 0
Calls = List Call

-- A call of the client, in a method that changes a VM.
abbrev pub on_calls : {A : Type 0} → Action Calls A → Action Session A
on_calls m s = let (r, calls) = m s.calls in (r, record s { calls = calls })

abbrev pub set_vm : (Vm → Vm) → Action Session Unit
set_vm f = modify (λ s. record s { vm = f s.vm })

-- A call that answers by what was done before, and is then recorded.
abbrev pub call : {A : Type 0} → Call → (Calls → A) → Action Calls A
call c answer calls = (ok (answer calls), c ∷ calls)

-- `string.ascii_letters + string.digits`
abbrev letters : String
letters = "abcdefghijklmnopqrstuvwxyzABCDEFGHIJKLMNOPQRSTUVWXYZ0123456789"

-- The text with one more character, the one at the index.
abbrev add_letter : String → ℕ → String → String
add_letter String.[] i rest = rest
add_letter (String.◌∷◌ c cs) zero rest = String.◌∷◌ c rest
add_letter (String.◌∷◌ c cs) (suc i) rest = add_letter cs i rest

unfoldable pub unique : (ℕ → ℕ) → ℕ → String
unique index zero = ""
unique index (suc n) = add_letter letters (index n) (unique index n)

abbrev pub get_unique_string : (ℕ → ℕ) → String
get_unique_string index = unique index 8

abbrev pub to_vm_flavor : OsFlavor → VmFlavor
to_vm_flavor f = record { id = f.id; name = f.name; vcpus = f.vcpus; ram = f.ram }

-- `server.addresses.values()[0][0]['addr']`, none where that raises.
abbrev pub first_address : List (List (Dict String)) → Option String
first_address [] = none
first_address ([] ∷ rest) = none
first_address ((a ∷ more) ∷ rest) = lookup "addr" a

abbrev pub is_none : Option String → Bool
is_none none = true
is_none (some s) = false

-- The server is up, and nothing is done to it.
abbrev pub is_active : Server → Bool
is_active server =
    str_eq server.status "ACTIVE" && (str_eq server.vm_state "active" && is_none server.task_state)

abbrev pub is_failed : Server → Bool
is_failed server = str_eq server.status "ERROR" || str_eq server.vm_state "error"

module _ (self : OpenStackCloud) where
  unfoldable pub credentials : Option String → Result Credentials
  credentials none = ok (record {
    username = self.username;
    password = self.password;
    tenant_name = self.tenant_name;
  })
  credentials (some res) = elim (lookup res self.cloud_resources) [
    | none ↦ err key_error
    | some r ↦
        ok (record { username = r.username; password = r.password; tenant_name = r.tenant_name })
  ]

-- The loop of attempts, with those that still fail. Each failure makes the next pause longer.
unfoldable pub connect : Credentials → ℕ → ℕ → Action Calls Unit
connect c zero sleep_time = call (connected c) (λ _. tt)
connect c (suc n) sleep_time =
    call (slept (sleep_time + 5)) (λ _. tt) >> connect c n (sleep_time + 5)

module _ (nova : Nova) where
  abbrev pub find_server : String → Action Calls (Answer Server)
  find_server id = call (got_server id) (λ calls. nova.get_server calls id)

  abbrev pub find_flavor : String → Action Calls (Option OsFlavor)
  find_flavor id = call (got_flavor id) (λ calls. nova.get_flavor calls id)

  -- `connection.flavors.get(server.flavor['id'])`
  abbrev pub flavor_of : Server → Action Calls OsFlavor
  flavor_of server = do
    id ← or_raise (lookup "id" server.flavor) key_error
    f ← find_flavor id
    or_raise f (exception "flavor not found")

  module _ (self : OpenStackCloud) where
    unfoldable pub open_connection : Option String → Action Calls Unit
    unfolding credentials connect
    open_connection res = do
      c ← from_result (credentials self res)
      n ← gets (λ calls. nova.failures calls c)
      connect c n 5

    -- A server that is not there, or is deleted now, is the same; the answer is whether the VM is
    -- gone.
    abbrev pub delete_found : Answer Server → Action Calls (Answer Unit)
    delete_found (found server) =
        call (deleted_server server.id) (λ calls. nova.delete_server calls server.id)
    delete_found not_found = pure not_found
    delete_found failed = pure failed

    abbrev pub is_deleted : Answer Unit → Bool
    is_deleted failed = false
    is_deleted _ = true

    module _ (host : Machine) where
      unfoldable pub vm_destroy : Action Session Bool
      unfolding open_connection
      vm_destroy = do
        vm ← gets (λ s. s.vm)
        on_calls (open_connection (some vm.cloud_resource_name))
        server ← on_calls (find_server vm.id)
        deleted ← on_calls (delete_found server)
        if not (is_deleted deleted) then pure false else (do
          now ← gets (λ s. host.utcnow s.calls)
          set_vm (λ v. record v { delete_time = some now })
          on_calls (find_server vm.id)
          pure true)

      abbrev zone_or : Option String → String → String
      zone_or none default = default
      zone_or (some zone) default = if str_eq zone "" then default else zone

      abbrev id_of : Flavor → String
      id_of (flavor_id id) = id
      id_of (flavor_object f) = f.id

      -- `servers.create`, and the VM made of its answer.
      abbrev create :
          Flavor → OsFlavor → (name image userdata zone res : String) → Action Calls (Option Vm)
      create flavor flavor_obj name image userdata zone res = do
        server ←
            call (created_server name image flavor_obj.id userdata zone)
              (λ calls. nova.create_server calls name image flavor_obj.id userdata zone)
        pure (elim server [
          | none ↦ none
          | some s ↦ some (
              new_vm s.id name none none flavor_obj.vcpus (some flavor) (some s.created) (some zone)
                (some image) res)
        ])

      abbrev with_flavor :
          Flavor
          → Option OsFlavor
          → (name image userdata zone res : String) → Action Calls (Option Vm)
      with_flavor flavor none name image userdata zone res = pure none
      with_flavor flavor (some f) name image userdata zone res =
          create flavor f name image userdata zone res

      abbrev with_userdata :
          Flavor
          → Option String
          → (name image res : String) → Option String
          → Action Calls (Option Vm)
      with_userdata flavor availability_zone name image res none = pure none
      with_userdata flavor availability_zone name image res (some userdata) = do
        f ← find_flavor (id_of flavor)
        with_flavor flavor f name image userdata
            (zone_or availability_zone self.default_availability_zone) res

      -- A missing file of user data, and every exception, answers `None`.
      unfoldable pub vm_start : Flavor → Option String → String → Action Calls (Option Vm)
      unfolding open_connection unique
      vm_start flavor availability_zone res = do
        open_connection (some res)
        resource ← or_raise (lookup res self.cloud_resources) key_error
        suffix ← gets (λ calls. get_unique_string (host.random_index calls))
        let name = self.vm_prefix <> ("-" <> (res <> ("-" <> suffix)))
        if host.is_file resource.user_data_file
            then with_userdata flavor availability_zone name resource.image_uuid res
                (host.render resource.user_data_file name)
            else pure none

      abbrev pub fill_vcpus : Server → Action Session Unit
      fill_vcpus server = do
        vm ← gets (λ s. s.vm)
        if vm.vcpu_number == 0
            then (do
              f ← on_calls (flavor_of server)
              set_vm (λ v. record v { vcpu_number = f.vcpus }))
            else pure tt

      -- A server that is up and has an address: 0 if it can be reached, and 1 if not.
      abbrev pub check_address : Server → String → Action Session ℕ
      check_address server ip = do
        set_vm (λ v. record v { availability_zone = some self.default_availability_zone })
        image ← or_raise (lookup "id" server.image) key_error
        set_vm (λ v. record v { image_id = some image; ip = some ip })
        f ← on_calls (flavor_of server)
        set_vm (λ v. record v { flavor = some (flavor_object (to_vm_flavor f)) })
        ready ← on_calls (call (reached ip 15002) (λ calls. host.reachable calls ip 15002))
        pure (if ready then 0 else 1)

      abbrev pub by_address : Server → Option String → Action Session ℕ
      by_address server none = pure 2
      by_address server (some ip) = check_address server ip

      abbrev pub check_found : Server → Action Session ℕ
      check_found server = do
        set_vm (λ v. record v { state = some server.status; start_time = some server.created })
        fill_vcpus server
        if is_failed server
            then pure 4
            else if not (is_active server)
            then pure 2
            else by_address server (first_address server.addresses)

      abbrev pub by_server : Answer Server → Action Session ℕ
      by_server (found server) = check_found server
      by_server not_found = pure 3
      by_server failed = pure 3

      unfoldable pub vm_check : Action Session ℕ
      unfolding open_connection
      vm_check = do
        vm ← gets (λ s. s.vm)
        on_calls (open_connection (some vm.cloud_resource_name))
        server ← on_calls (find_server vm.id)
        by_server server

      -- The address, zone and image of a server that is up.
      abbrev fill_active : Server → Vm → Result Vm
      fill_active server vm =
          if is_active server
          then elim (lookup "id" server.image) [
            | none ↦ err key_error
            | some image ↦ ok (record vm {
              ip = first_address server.addresses;
              availability_zone = some server.zone;
              image_id = some image;
            })
          ]
          else ok vm

      -- The body of the loop of `vm_list`.
      abbrev pub vm_of : String → Server → Action Calls Vm
      vm_of res server = do
        vm ← from_result (
            fill_active server
              (new_vm server.id server.name none none 0 none none none none "default"))
        f ← flavor_of server
        pure (record vm {
          start_time = some server.created;
          state = some server.status;
          flavor = some (flavor_object (to_vm_flavor f));
          vcpu_number = f.vcpus;
          cloud_resource_name = res;
        })

      abbrev vms_of : String → Option (List Server) → Action Calls (List Vm)
      vms_of res none = raise (exception "servers")
      vms_of res (some servers) =
          fold_each servers []
            (λ all_vms server. do vm ← vm_of res server; pure (all_vms ++ (vm ∷ [])))

      -- `try: ... except: return default`
      abbrev pub or_else : {A : Type 0} → Action Calls A → A → Action Calls A
      or_else m default calls =
          let (r, calls') = m calls in (elim r [ ok a ↦ ok a | err e ↦ ok default ], calls')

      unfoldable pub vm_list : String → Action Calls (List Vm)
      unfolding open_connection
      vm_list res = do
        open_connection (some res)
        let name = self.vm_prefix <> ("-" <> (res <> "*"))
        servers ← call (listed_servers name) (λ calls. nova.list_servers calls name)
        or_else (vms_of res servers) []

    -- A limit of 0 is none.
    abbrev pub fits : (max min : ℕ) → OsFlavor → Bool
    fits max min f = (ltb max 1 || leb f.vcpus max) && (ltb min 1 || leb min f.vcpus)

    abbrev fitting : (max min : ℕ) → Option (List OsFlavor) → List VmFlavor
    fitting max min none = []
    fitting max min (some fs) = map to_vm_flavor (filter (fits max min) fs)

    unfoldable pub get_flavor_list : (max min : ℕ) → Action Calls (List VmFlavor)
    unfolding open_connection
    get_flavor_list max min = do
      open_connection none
      fs ← call listed_flavors nova.list_flavors
      pure (fitting max min fs)
