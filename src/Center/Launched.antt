-- ===== src/Center/Launched.antt =====
-- What `launch_instances` does with the waiting list.
use dynamictorque.Base.{
  ℕ, zero, suc, ◌+◌, ◌-◌, ◌≤◌, ◌≡◌, refl, ap, sym, ◌∙◌, arith, true, ◌&&◌, List, [], ◌∷◌, ◌++◌, inl,
  inr, ◌⊎◌, Option-cases, Bool-cases, length, ltb, false, length-append,
}
use dynamictorque.Base.Action.{Post, Post-imp, and_then-Post, for_each-Post, for_each}
use dynamictorque.CloudTools.{ProvisionVm}
use dynamictorque.Cloud.{Cloud}
use dynamictorque.Center.State.{Center, fresh}
use dynamictorque.Center.Launch.{remove_request, remove_waiting, launch_loop, launch_instances}
use dynamictorque.Center.Requests.{
  is_request, is_static, occurs, statics, remove_request-none, sum_of-remove_request,
  same_request_refl,
}
use dynamictorque.Center.Started.{Started, Stopped, Done, take, append_nil, launch_loop-Started}

-- The loop that takes the requests off the waiting list: those in `rs` are still there.
record Removing (s : Center) (to_remove rs : List ProvisionVm) (t : Center) : Type 0 where
  next : t.next ≡ s.next
  starting : t.starting_instances ≡ s.starting_instances
  existing : t.existing_instances ≡ s.existing_instances
  deleting : t.deleting_instances ≡ s.deleting_instances
  there : (p : ProvisionVm) → occurs p rs ≤ occurs p t.provision_waiting_list
  statics_left :
      statics t.provision_waiting_list + statics to_remove
      ≡ statics s.provision_waiting_list + statics rs

remove_waiting-Removing :
    (s : Center) (to_remove : List ProvisionVm) (p : ProvisionVm) (rs : List ProvisionVm)
    (t : Center)
    → Removing s to_remove (p ∷ rs) t
    → Post (λ _. Removing s to_remove rs) (λ _. ⊥) (remove_waiting p t)
unfolding remove_waiting
remove_waiting-Removing s to_remove p rs t h =
    elim (Option-cases (remove_request p t.provision_waiting_list)) [
      | inl gone ↦
          let here : is_request p p ≡ 1 = rw (same_request_refl p) refl in
          absurd
            (omega (arith, h.there p, here, remove_request-none p t.provision_waiting_list gone))
      | inr (l, e) ↦
          rw (e, remove_waiting)
            (record {
              next = h.next;
              starting = h.starting;
              existing = h.existing;
              deleting = h.deleting;
              there = λ q. omega (
                arith,
                h.there q,
                sum_of-remove_request (is_request q) p t.provision_waiting_list l e,
              );
              statics_left = omega (
                arith,
                h.statics_left,
                sum_of-remove_request is_static p t.provision_waiting_list l e,
              );
            })
    ]

-- The VMs that a batch has room for.
abbrev pub room_of : Center → ℕ
room_of s = s.shell.config.vm_creation_batch_number - length s.starting_instances

-- What `launch_instances` does.
pub record Launched (cloud : Cloud) (s t : Center) : Type 0 where
  pub number : ℕ
  pub within_batch :
      (number ≡ 0) ⊎ (length t.starting_instances ≤ s.shell.config.vm_creation_batch_number)
  pub asked_for : number ≤ length s.provision_waiting_list
  pub done : Done cloud (room_of s) s.provision_waiting_list number
  pub next : t.next ≡ s.next + number
  pub starting : t.starting_instances ≡ s.starting_instances ++ fresh s.next number
  pub existing : t.existing_instances ≡ s.existing_instances
  pub deleting : t.deleting_instances ≡ s.deleting_instances
  pub statics_left :
      statics t.provision_waiting_list + statics (take number s.provision_waiting_list)
      ≡ statics s.provision_waiting_list

length-fresh : (from n : ℕ) → length (fresh from n) ≡ n
length-fresh from zero = refl
length-fresh from (suc n) = ap suc (length-fresh (suc from) n)

launched :
    (cloud : Cloud) (s t u : Center) (to_remove : List ProvisionVm)
    → Started cloud
        (room_of s)
        s.provision_waiting_list
        []
        to_remove
        (record s { provisioning = true })
        t
    → Removing t to_remove [] u
    → room_of s + length s.starting_instances ≤ s.shell.config.vm_creation_batch_number
    → Launched cloud s u
launched cloud s t u to_remove h k room = record {
  number = h.number;
  within_batch = inr (
      omega (
        arith,
        h.fits,
        ap length (k.starting ∙ h.grown.starting),
        length-append s.starting_instances (fresh s.next h.number),
        length-fresh s.next h.number,
      ));
  asked_for = h.asked_for;
  done = h.done;
  next = omega (arith, h.grown.next, k.next);
  starting = k.starting ∙ h.grown.starting;
  existing = k.existing ∙ h.grown.existing;
  deleting = k.deleting ∙ h.grown.deleting;
  statics_left = omega (arith, h.keeps, k.statics_left, ap statics h.grown.waiting);
}

room :
    (waiting starting batch : ℕ)
    → (ltb 0 waiting && ltb starting batch) ≡ true
    → batch - starting + starting ≤ batch
room waiting starting batch e = ground arith

before-Stopped :
    (cloud : Cloud) (s t : Center)
    → Stopped cloud (room_of s) s.provision_waiting_list (record s { provisioning = true }) t
    → Stopped cloud (room_of s) s.provision_waiting_list s t
before-Stopped cloud s t h = record {
  number = h.number;
  fits = h.fits;
  error = h.error;
  asked = h.asked;
  grown = record {
    next = h.grown.next;
    starting = h.grown.starting;
    existing = h.grown.existing;
    deleting = h.grown.deleting;
    waiting = h.grown.waiting;
  };
}

-- Without a batch to fill, or a request to serve, there is nothing to do.
no_room :
    (cloud : Cloud) (ps : List ProvisionVm) (starting batch : ℕ)
    → (ltb 0 (length ps) && ltb starting batch) ≡ false
    → Done cloud (batch - starting) ps 0
no_room cloud [] starting batch e = inr (inl refl)
no_room cloud (p ∷ ps) starting batch e = inl (ground (arith, e))

-- A launch starts new VMs for the first requests that wait and puts them behind the VMs that start;
-- the other lists stay. It goes on until as many as a batch start at once, all requests are served,
-- or the cloud cannot create the next VM. No request for a static VM is lost: those left are all
-- but those among the requests just started. It raises only where the cloud's `vm_start` does: then
-- the VMs that were started before have come behind those that start, and neither another list of
-- VMs nor the list of requests has changed.
pub launch_instances-Launched :
    (cloud : Cloud) (s : Center)
    → Post
        (λ _. Launched cloud s)
        (Stopped cloud (room_of s) s.provision_waiting_list s)
        (launch_instances cloud s)
unfolding launch_instances
launch_instances-Launched cloud s =
    let batch = s.shell.config.vm_creation_batch_number in
    let n = room_of s in
    let s' = record s { provisioning = true } in
    let E = Stopped cloud n s.provision_waiting_list s in
    elim (Bool-cases
      (ltb 0 (length s.provision_waiting_list) && ltb (length s.starting_instances) batch)) [
        | inl e ↦ rw e (
            and_then-Post (λ r. Started cloud n s.provision_waiting_list [] r s')
              (λ _. Launched cloud s) E (launch_loop cloud s.provision_waiting_list n [] s')
              (λ r. for_each r remove_waiting)
              (Post-imp (λ r. Started cloud n s.provision_waiting_list [] r s')
                (λ r. Started cloud n s.provision_waiting_list [] r s')
                (Stopped cloud n s.provision_waiting_list s') E _ (λ _ _ h. h)
                (λ t h. before-Stopped cloud s t h)
                (launch_loop-Started cloud s.provision_waiting_list n [] s'))
              (λ r t h.
                Post-imp (λ _. Removing t r []) (λ _. Launched cloud s) (λ _. ⊥) E _
                  (λ _ u k.
                    launched cloud s t u r h k (
                      room (length s.provision_waiting_list) (length s.starting_instances) batch e))
                  (λ _ e. absurd e)
                  (for_each-Post (Removing t r) (λ _. ⊥) remove_waiting
                    (remove_waiting-Removing t r) r t
                    (record {
                      next = refl;
                      starting = refl;
                      existing = refl;
                      deleting = refl;
                      there = λ p. omega (arith, h.few p, ap (occurs p) h.grown.waiting);
                      statics_left = refl;
                    }))))
        | inr e ↦ rw e (record {
          number = 0;
          within_batch = inl refl;
          asked_for = omega arith;
          done = no_room cloud s.provision_waiting_list (length s.starting_instances) batch e;
          next = omega arith;
          starting = sym (append_nil s.starting_instances);
          existing = refl;
          deleting = refl;
          statics_left = omega arith;
        })
      ]
