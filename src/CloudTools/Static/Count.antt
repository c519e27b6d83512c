-- ===== src/CloudTools/Static/Count.antt =====
-- How many static VMs are wanted before and after each operation.
use text.Mathlib.TextEquality.{eq_iff}
use dynamictorque.Base.{
  ℕ, ◌+◌, zero, suc, ◌-◌, ap, ◌++◌, Option-cases, ◌≡◌, refl, String, Bool, true, false, Option,
  List, [], ◌∷◌, arith, ltb, str_eq, sum_of, All, length, length-append, replicate, inl, inr,
  if◌then◌else◌, Bool-cases,
}
use dynamictorque.Base.Dict.{Dict, lookup}
use dynamictorque.Base.Action.{Result, ok, err}
use dynamictorque.CloudTools.{StaticReq, StaticVms, ProvisionVm, VmFlavor}
use dynamictorque.CloudTools.Static.{
  add_static_req, need_more, need_vm, get_provision_list, in_zone, put_back, requests, take_from,
  join,
}

-- The VMs that all locations want together.
abbrev pub total : StaticVms → ℕ
total = sum_of (λ req. req.num_of_vm)

-- The VMs that one location wants.
abbrev pub wanted : String → StaticVms → ℕ
wanted location = sum_of (λ req. if str_eq req.location location then req.num_of_vm else 0)

-- A request for `n` VMs raises what its location wants by `n` and what any other wants by none.
pub wanted-add_static_req :
    (location other : String) (n : ℕ) (reqs : StaticVms)
    → wanted other (add_static_req location n reqs)
      ≡ wanted other reqs + (if str_eq location other then n else 0)
unfolding add_static_req
wanted-add_static_req location other n [] = ground arith
wanted-add_static_req location other n (req ∷ reqs) = ground (
  arith,
  eq_iff req.location location,
  eq_iff req.location other,
  eq_iff location other,
  wanted-add_static_req location other n reqs,
)

-- `need_more` says whether any VM is wanted.
pub need_more_iff : (reqs : StaticVms) → need_more reqs ≡ ltb 0 (total reqs)
unfolding need_more
need_more_iff [] = refl
need_more_iff (req ∷ reqs) = ground (arith, need_more_iff reqs)

-- What a call of `need_vm` on `reqs` has done.
abbrev pub Takes : StaticVms → Result (Bool × StaticVms) → Type 0
Takes reqs (err e) = Unit
Takes reqs (ok (true, reqs')) = total reqs ≡ total reqs' + 1
Takes reqs (ok (false, reqs')) = reqs' ≡ reqs

put_back-Takes :
    (req : StaticReq) (reqs : StaticVms) (r : Result (Bool × StaticVms))
    → Takes reqs r
    → Takes (req ∷ reqs) (put_back req r)
put_back-Takes req reqs (err e) h = tt
put_back-Takes req reqs (ok (true, reqs')) h = omega arith
put_back-Takes req reqs (ok (false, reqs')) h = cc

take_from-Takes :
    (req : StaticReq) (reqs : StaticVms) (meets : Result Bool) (rest : Result (Bool × StaticVms))
    → Takes (req ∷ reqs) rest
    → Takes (req ∷ reqs) (take_from req reqs meets rest)
unfolding take_from
take_from-Takes req reqs (err e) rest h = tt
take_from-Takes req reqs (ok false) rest h = h
take_from-Takes req reqs (ok true) rest h = elim (Bool-cases (ltb 0 req.num_of_vm)) [
  | inl e ↦ rw e (ground arith)
  | inr e ↦ rw e h
]

-- Unless it raises, a VM that is needed is taken off the count, exactly once; if it is not needed,
-- nothing changes.
pub need_vm-Takes :
    (az : Option String) (properties : Dict String) (reqs : StaticVms)
    → Takes reqs (need_vm az properties reqs)
unfolding need_vm
need_vm-Takes az properties [] = refl
need_vm-Takes az properties (req ∷ reqs) =
    take_from-Takes req reqs (in_zone properties req.location az) _
      (put_back-Takes req reqs (need_vm az properties reqs) (need_vm-Takes az properties reqs))

-- Without locations a VM is needed whenever any is wanted, and no call raises.
pub need_vm_anywhere :
    (az : Option String) (reqs : StaticVms)
    → (reqs' : StaticVms) × (need_vm az [] reqs ≡ ok (ltb 0 (total reqs), reqs'))
unfolding need_vm take_from
need_vm_anywhere az [] = ([], refl)
need_vm_anywhere az (req ∷ reqs) =
    let (rest, e) = need_vm_anywhere az reqs in
    elim (Bool-cases (ltb 0 req.num_of_vm)) [
      | inl more ↦ (record req { num_of_vm = req.num_of_vm - 1 } ∷ reqs, ground arith)
      | inr none_left ↦ (req ∷ rest, ground arith)
    ]

-- What a list of requests for static VMs looks like.
abbrev pub Asks : ℕ → Result (List ProvisionVm) → Type 0
Asks n (err e) = Unit
Asks n (ok l) = (length l ≡ n) × All (λ p. p.static ≡ true) l

All-append :
    (xs ys : List ProvisionVm)
    → All (λ p. p.static ≡ true) xs
    → All (λ p. p.static ≡ true) ys
    → All (λ p. p.static ≡ true) (xs ++ ys)
All-append [] ys h k = k
All-append (x ∷ xs) ys h k = (h.0, All-append xs ys h.1 k)

replicate-Asks : (n : ℕ) (p : ProvisionVm) → p.static ≡ true → Asks n (ok (replicate n p))
replicate-Asks zero p h = (refl, tt)
replicate-Asks (suc n) p h = let (l, all) = replicate-Asks n p h in (ap suc l, (h, all))

requests-Asks :
    (properties : Dict String) (req : StaticReq) (flavor : VmFlavor) (res : String)
    → Asks req.num_of_vm (requests properties req flavor res)
requests-Asks [] req flavor res = replicate-Asks req.num_of_vm _ refl
requests-Asks (p ∷ ps) req flavor res = elim (Option-cases (lookup req.location (p ∷ ps))) [
  | inl gone ↦ rw (gone, requests) tt
  | inr (z, e) ↦ rw (e, requests) (replicate-Asks req.num_of_vm _ refl)
]

join-Asks :
    (m n : ℕ) (a b : Result (List ProvisionVm)) → Asks m a → Asks n b → Asks (m + n) (join a b)
join-Asks m n (err e) b h k = tt
join-Asks m n (ok xs) (err e) h k = tt
join-Asks m n (ok xs) (ok ys) h k =
    (omega (arith, length-append {0} xs ys), All-append xs ys h.1 k.1)

-- Unless it raises, the list asks for as many VMs as are wanted, all of them static.
pub get_provision_list-Asks :
    (flavor : VmFlavor) (res : String) (properties : Dict String) (reqs : StaticVms)
    → Asks (total reqs) (get_provision_list flavor res properties reqs)
unfolding get_provision_list
get_provision_list-Asks flavor res properties [] = (refl, tt)
get_provision_list-Asks flavor res properties (req ∷ reqs) =
    join-Asks req.num_of_vm (total reqs) (requests properties req flavor res)
      (get_provision_list flavor res properties reqs) (requests-Asks properties req flavor res)
      (get_provision_list-Asks flavor res properties reqs)
