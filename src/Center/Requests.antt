-- ===== src/Center/Requests.antt =====
-- Requests for VMs, told apart, and their removal from the waiting list.
use text.Mathlib.TextEquality.{eq_iff}
use mathlib.Core.Option.{some-injective}
use dynamictorque.Base.{
  ℕ, ◌+◌, ◌≡◌, refl, ap, arith, String, Bool, false, true, ◌&&◌, ◌==◌, Option, none, some, List, [],
  ◌∷◌, inl, inr, Option-cases, Bool-cases, if◌then◌else◌, str_eq, opt_str_eq, sum_of,
}
use dynamictorque.CloudTools.{ProvisionVm, Flavor, flavor_id, flavor_object}
use dynamictorque.Center.Launch.{same_request, remove_request, bool_eq, flavor_eq}

both : (a b : Bool) → (a && b) ≡ true → (a ≡ true) × (b ≡ true)
both true b h = (refl, h)
both false b h = cc

flavor_eq-≡ : (f g : Flavor) → flavor_eq f g ≡ true → f ≡ g
unfolding flavor_eq
flavor_eq-≡ (flavor_id a) (flavor_id b) h = ap flavor_id ((eq_iff a b).0 h)
flavor_eq-≡ (flavor_id a) (flavor_object b) h = cc
flavor_eq-≡ (flavor_object a) (flavor_id b) h = cc
flavor_eq-≡ (flavor_object a) (flavor_object b) h =
    let (id, h1) = both (str_eq a.id b.id) _ h in
    let (name, h2) = both (str_eq a.name b.name) _ h1 in
    let (vcpus, ram) = both (a.vcpus == b.vcpus) (a.ram == b.ram) h2 in
    let e1 = (eq_iff a.id b.id).0 id in
    let e2 = (eq_iff a.name b.name).0 name in
    let e3 : a.vcpus ≡ b.vcpus = ground (arith, vcpus) in
    let e4 : a.ram ≡ b.ram = ground (arith, ram) in
    ap flavor_object (λ i. record { id = e1 i; name = e2 i; vcpus = e3 i; ram = e4 i })

opt_str_eq-≡ : (a b : Option String) → opt_str_eq a b ≡ true → a ≡ b
opt_str_eq-≡ none none h = refl
opt_str_eq-≡ (some a) none h = cc
opt_str_eq-≡ none (some b) h = cc
opt_str_eq-≡ (some a) (some b) h = ap some ((eq_iff a b).0 h)

bool_eq-≡ : (a b : Bool) → bool_eq a b ≡ true → a ≡ b
bool_eq-≡ a b h = ground arith

-- The test of the source's `==` tells requests apart.
pub same_request-≡ : (p q : ProvisionVm) → same_request p q ≡ true → p ≡ q
unfolding same_request
same_request-≡ p q h =
    let (static, h1) = both (bool_eq p.static q.static) _ h in
    let (flavor, h2) = both (flavor_eq p.flavor q.flavor) _ h1 in
    let (zone, name) =
      both (opt_str_eq p.zone q.zone) (str_eq p.resource_name q.resource_name) h2 in
    let e1 = bool_eq-≡ p.static q.static static in
    let e2 = flavor_eq-≡ p.flavor q.flavor flavor in
    let e3 = opt_str_eq-≡ p.zone q.zone zone in
    let e4 = (eq_iff p.resource_name q.resource_name).0 name in
    λ i. record { flavor = e2 i; zone = e3 i; resource_name = e4 i; static = e1 i }

flavor_eq_refl : (f : Flavor) → flavor_eq f f ≡ true
unfolding flavor_eq
flavor_eq_refl (flavor_id a) = (eq_iff a a).1 refl
flavor_eq_refl (flavor_object a) =
    rw ((eq_iff a.id a.id).1 refl, (eq_iff a.name a.name).1 refl) (ground arith)

opt_str_eq_refl : (a : Option String) → opt_str_eq a a ≡ true
opt_str_eq_refl none = refl
opt_str_eq_refl (some a) = (eq_iff a a).1 refl

bool_eq_refl : (a : Bool) → bool_eq a a ≡ true
bool_eq_refl true = refl
bool_eq_refl false = refl

pub same_request_refl : (p : ProvisionVm) → same_request p p ≡ true
unfolding same_request
same_request_refl p =
    rw
      (
        bool_eq_refl p.static,
        flavor_eq_refl p.flavor,
        opt_str_eq_refl p.zone,
        (eq_iff p.resource_name p.resource_name).1 refl,
      )
      refl

-- How often a request is in a list, and how many of the requests are for static VMs.
abbrev pub is_request : ProvisionVm → ProvisionVm → ℕ
is_request p q = if same_request p q then 1 else 0

abbrev pub occurs : ProvisionVm → List ProvisionVm → ℕ
occurs p = sum_of (is_request p)

abbrev pub is_static : ProvisionVm → ℕ
is_static p = if p.static then 1 else 0

abbrev pub statics : List ProvisionVm → ℕ
statics = sum_of is_static

-- A removal fails only if the request is not there.
pub remove_request-none :
    (p : ProvisionVm) (l : List ProvisionVm) → remove_request p l ≡ none → occurs p l ≡ 0
unfolding remove_request
remove_request-none p [] h = refl
remove_request-none p (q ∷ qs) h = ground (arith, remove_request-none p qs)

-- It takes away the request and nothing else, by any count.
pub sum_of-remove_request :
    (f : ProvisionVm → ℕ) (p : ProvisionVm) (l l' : List ProvisionVm)
    → remove_request p l ≡ some l'
    → sum_of f l ≡ sum_of f l' + f p
unfolding remove_request
sum_of-remove_request f p [] l' h = cc
sum_of-remove_request f p (q ∷ qs) l' h = elim (Bool-cases (same_request p q)) [
  | inl e ↦
      let found : some qs ≡ some l' = rw e at h in
      omega (arith, ap (sum_of f) (some-injective qs l' found), ap f (same_request-≡ p q e))
  | inr e ↦ elim (Option-cases (remove_request p qs)) [
    | inl gone ↦ absurd (ground arith)
    | inr (k, g) ↦
        let found : some (q ∷ k) ≡ some l' = rw (e, g) at h in
        omega
          (arith, ap (sum_of f) (some-injective (q ∷ k) l' found), sum_of-remove_request f p qs k g)
  ]
]
