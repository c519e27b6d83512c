-- ===== src/OpenStack/States.antt =====
-- What the states mean that `vm_check` answers.
use dynamictorque.Base.{
  ℕ, ◌≤◌, ◌≡◌, refl, sym, arith, String, Bool, true, false, not, Option, none, some, ◌==◌, ◌⊎◌, inl,
  inr, if◌then◌else◌,
}
use dynamictorque.Base.Dict.{lookup}
use dynamictorque.Base.Action.{
  Action, Result, ok, err, key_error, Post, Post-imp, ok-injective, and_then, and_then-Post,
  if-Post, or_raise_then-Post, pure,
}
use dynamictorque.CloudTools.{Vm}
use dynamictorque.OpenStack.{
  OpenStackCloud, Session, Calls, is_active, is_failed, first_address, check_address, by_address,
  check_found, by_server, fill_vcpus, flavor_of, open_connection, vm_check,
}
use dynamictorque.OpenStack.Client.{Nova, Machine, Server, Answer, found, not_found, failed}

-- The states 0 and 1: the server is up, and the VM has its address.
pub record IsUp (server : Server) (n : ℕ) (vm : Vm) : Type 0 where
  pub ip : String
  pub bound : n ≤ 1
  pub fine : is_failed server ≡ false
  pub active : is_active server ≡ true
  pub address : first_address server.addresses ≡ some ip
  pub has_ip : vm.ip ≡ some ip
  pub has_state : vm.state ≡ some server.status

-- What a state says of the server that the cloud found, or did not find, and of the VM.
abbrev pub Explains : Answer Server → ℕ → Vm → Type 0
Explains (found server) n vm =
    ((n ≡ 4) × (is_failed server ≡ true))
    ⊎ (((n ≡ 2)
          × (is_failed server ≡ false)
          × ((is_active server ≡ false) ⊎ (first_address server.addresses ≡ none)))
        ⊎ IsUp server n vm)
Explains not_found n vm = n ≡ 3
Explains failed n vm = n ≡ 3

abbrev Any : Session → Type 0
Any s = Unit

called-Post :
    {A : Type 0} (Q : A → Session → Type 0) (vm : Vm) (x : Result A × Calls)
    → ((a : A) (c : Calls) → Q a (record { calls = c; vm = vm }))
    → Post Q Any (x.0, record { calls = x.1; vm = vm })
called-Post Q vm (ok a, c) h = h a c
called-Post Q vm (err e, c) h = tt

called_then-Post :
    {A B : Type 0} (Q : B → Session → Type 0) (vm : Vm) (f : A → Action Session B)
    (x : Result A × Calls)
    → ((a : A) (c : Calls) → Post Q Any (f a (record { calls = c; vm = vm })))
    → Post Q Any (and_then (x.0, record { calls = x.1; vm = vm }) f)
called_then-Post Q vm f (ok a, c) h = h a c
called_then-Post Q vm f (err e, c) h = tt

not-true : (b : Bool) → not b ≡ true → b ≡ false
not-true b h = ground arith

not-false : (b : Bool) → not b ≡ false → b ≡ true
not-false b h = ground arith

at_most_one : (b : Bool) → (if b then 0 else 1) ≤ 1
at_most_one true = omega arith
at_most_one false = omega arith

module _ (nova : Nova) (self : OpenStackCloud) (host : Machine) (server : Server) where
  abbrev HasState : Session → Type 0
  HasState s = s.vm.state ≡ some server.status

  fill_vcpus-HasState :
      (s : Session) → HasState s → Post (λ _. HasState) Any (fill_vcpus nova self host server s)
  fill_vcpus-HasState s h =
      if-Post (λ _. HasState) Any (s.vm.vcpu_number == 0) _ (pure tt) s
        (λ _. called_then-Post (λ _. HasState) s.vm _ (flavor_of nova server s.calls) (λ f c. h))
        (λ _. h)

  check_address-IsUp :
      (ip : String) (s : Session)
      → is_failed server ≡ false
      → is_active server ≡ true
      → first_address server.addresses ≡ some ip
      → HasState s
      → Post (λ n t. IsUp server n t.vm) Any (check_address nova self host server ip s)
  check_address-IsUp ip s fine active address h =
      or_raise_then-Post (λ n t. IsUp server n t.vm) Any (lookup "id" server.image) key_error _ _
        (λ image e.
          called_then-Post (λ n t. IsUp server n t.vm) _ _ (flavor_of nova server s.calls)
            (λ f c. record {
              ip = ip;
              bound = at_most_one (host.reachable c ip 15002);
              fine = fine;
              active = active;
              address = address;
              has_ip = refl;
              has_state = h;
            }))
        tt

  by_address-Explains :
      (ip : Option String) (s : Session)
      → is_failed server ≡ false
      → is_active server ≡ true
      → first_address server.addresses ≡ ip
      → HasState s
      → Post (λ n t. Explains (found server) n t.vm) Any (by_address nova self host server ip s)
  by_address-Explains none s fine active address h = inr (inl (refl, fine, inr address))
  by_address-Explains (some ip) s fine active address h =
      Post-imp (λ n t. IsUp server n t.vm) (λ n t. Explains (found server) n t.vm) Any Any _
        (λ n t up. inr (inr up)) (λ t a. a) (check_address-IsUp ip s fine active address h)

  check_found-Explains :
      (s : Session)
      → Post (λ n t. Explains (found server) n t.vm) Any (check_found nova self host server s)
  check_found-Explains s =
      let t = record s {
        vm = record (s.vm) { state = some server.status; start_time = some server.created };
      } in
      and_then-Post (λ _. HasState) (λ n u. Explains (found server) n u.vm) Any
        (fill_vcpus nova self host server t) _ (fill_vcpus-HasState t refl)
        (λ _ u h.
          if-Post (λ n u. Explains (found server) n u.vm) Any (is_failed server) (pure 4) _ u
            (λ e. inl (refl, e))
            (λ fine.
              if-Post (λ n u. Explains (found server) n u.vm) Any (not (is_active server)) (pure 2)
                _ u (λ f. inr (inl (refl, fine, inl (not-true (is_active server) f))))
                (λ f.
                  by_address-Explains (first_address server.addresses) u fine
                    (not-false (is_active server) f) refl h)))

module _ (nova : Nova) (self : OpenStackCloud) (host : Machine) where
  by_server-Explains :
      (answer : Answer Server) (s : Session)
      → Post (λ n t. Explains answer n t.vm) Any (by_server nova self host answer s)
  by_server-Explains (found server) s = check_found-Explains nova self host server s
  by_server-Explains not_found s = refl
  by_server-Explains failed s = refl

  -- An answer of `vm_check` tells the truth about what the cloud answered to the look for the VM's
  -- server, after some calls `c`: 3 if no server was found; of a server that was found 4 if it has
  -- failed, 2 if it has not failed and is not active or has no address yet, and otherwise 0 or 1, with the server's
  -- address and status written to the VM.
  pub vm_check-Explains :
      (s : Session)
      → Post
          (λ n t. (c : Calls) × Explains (nova.get_server c s.vm.id) n t.vm)
          Any
          (vm_check nova self host s)
  unfolding vm_check
  vm_check-Explains s =
      called_then-Post (λ n t. (c : Calls) × Explains (nova.get_server c s.vm.id) n t.vm) s.vm _
        (open_connection nova self (some s.vm.cloud_resource_name) s.calls)
        (λ _ c.
          Post-imp (λ n t. Explains (nova.get_server c s.vm.id) n t.vm)
            (λ n t. (c : Calls) × Explains (nova.get_server c s.vm.id) n t.vm) Any Any _
            (λ n t k. (c, k)) (λ t a. a) (by_server-Explains (nova.get_server c s.vm.id) _))

  explained_bound : (answer : Answer Server) (n : ℕ) (vm : Vm) → Explains answer n vm → n ≤ 4
  explained_bound (found server) n vm (inl h) = omega (arith, h.0)
  explained_bound (found server) n vm (inr (inl h)) = omega (arith, h.0)
  explained_bound (found server) n vm (inr (inr h)) = omega (arith, h.bound)
  explained_bound not_found n vm h = omega (arith, h)
  explained_bound failed n vm h = omega (arith, h)

  ok-Post :
      {A : Type 0} (Q : A → Session → Type 0) (x : Result A × Session) (a : A)
      → Post Q Any x
      → x.0 ≡ ok a
      → Q a x.1
  ok-Post Q (ok b, s) a h e = rw (sym (ok-injective e)) h
  ok-Post Q (err y, s) a h e = cc

  -- A state that is answered is one of the five.
  pub vm_check_bound : (s : Session) (n : ℕ) → (vm_check nova self host s).0 ≡ ok n → n ≤ 4
  vm_check_bound s n e =
      let (c, h) = ok-Post _ (vm_check nova self host s) n (vm_check-Explains s) e in
      explained_bound (nova.get_server c s.vm.id) n _ h

  not_three : (server : Server) (vm : Vm) → ¬ (Explains (found server) 3 vm)
  not_three server vm (inl h) = omega (arith, h.0)
  not_three server vm (inr (inl h)) = omega (arith, h.0)
  not_three server vm (inr (inr h)) = omega (arith, h.bound)

  -- A VM whose server the cloud finds is not answered to be gone.
  pub vm_check_found :
      (s : Session)
      → ((c : Calls) → (server : Server) × (nova.get_server c s.vm.id ≡ found server))
      → ¬ ((vm_check nova self host s).0 ≡ ok 3)
  vm_check_found s there e =
      let (c, h) = ok-Post _ (vm_check nova self host s) 3 (vm_check-Explains s) e in
      let (server, f) = there c in not_three server _ (rw f at h)
