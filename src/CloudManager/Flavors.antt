-- ===== src/CloudManager/Flavors.antt =====
-- Which flavors a resource has once the cloud manager is made.
use text.Mathlib.TextEquality.{eq_iff}
use mathlib.Core.Option.{some-injective}
use mathlib.Core.List.{append_assoc, append-nil}
use dynamictorque.Base.{
  arith, ◌≡◌, refl, sym, ap, ◌∙◌, String, true, false, some, List, [], ◌∷◌, ◌++◌, any, All, filter,
  map, str_eq, inl, inr, Bool-cases, if◌then◌else◌,
}
use dynamictorque.Base.Sort.{sort_by}
use dynamictorque.Base.Dict.{Dict, lookup, insert, lookup-insert}
use dynamictorque.Base.Action.{ok, and_then, for_each}
use dynamictorque.CloudTools.{VmFlavor, CloudResource, FlavorNames, smaller_first}
use dynamictorque.Config.{Config, keys, with_resource}
use dynamictorque.CloudManager.{is_named, add_if_named, init_resource, init_cloud_resources}

str_eq_refl : (a : String) → str_eq a a ≡ true
str_eq_refl a = (eq_iff a a).1 refl

-- The resource with more flavors at the end.
abbrev with_flavors : List VmFlavor → CloudResource → CloudResource
with_flavors fs r = record r { flavor_objects = r.flavor_objects ++ fs }

-- Those of the flavors that the resource names.
abbrev pub named_of : CloudResource → List VmFlavor → List VmFlavor
named_of r fs = filter (λ f. is_named r.worker_node_flavors f.name) fs

-- What one resource's loop leaves of the configuration.
record Filled (resource : String) (r : CloudResource) (c c' : Config) : Type 0 where
  here : lookup resource c'.cloud_resources ≡ some r
  others :
      (name : String)
      → str_eq resource name ≡ false
      → lookup name c'.cloud_resources ≡ lookup name c.cloud_resources

module _ (resource : String) (names : FlavorNames) where
  added :
      (fs : List VmFlavor) (r : CloudResource) (c : Config)
      → lookup resource c.cloud_resources ≡ some r
      → (c' : Config) × (for_each fs (add_if_named resource names) c ≡ (ok tt, c'))
        × Filled resource (with_flavors (filter (λ f. is_named names f.name) fs) r) c c'
  unfolding for_each with_resource
  added [] r c h = (
    c,
    refl,
    record {
      here =
          h
          ∙ ap some (ap (λ l. record r { flavor_objects = l }) (sym (append-nil r.flavor_objects)));
      others = λ name e. refl;
    },
  )
  added (f ∷ fs) r c h = elim (Bool-cases (is_named names f.name)) [
    | inr e ↦ rw e (added fs r c h)
    | inl e ↦
        let r' = record r { flavor_objects = r.flavor_objects ++ (f ∷ []) } in
        let c1 = record c { cloud_resources = insert resource r' c.cloud_resources } in
        let there : lookup resource c1.cloud_resources ≡ some r' =
          lookup-insert resource resource r' c.cloud_resources ∙ rw (str_eq_refl resource) refl in
        let step : add_if_named resource names f c ≡ (ok tt, c1) = rw (e, h, with_resource) refl in
        let (c', run, filled) = added fs r' c1 there in
        (
          c',
          ap (λ x. and_then x (λ _. for_each fs (add_if_named resource names))) step ∙ run,
          record {
            here =
                filled.here
                ∙ rw e (
                    ap (λ l. some (record r { flavor_objects = l }))
                      (append_assoc r.flavor_objects (f ∷ [])
                        (filter (λ f. is_named names f.name) fs)));
            others = λ name other.
                filled.others name other
                ∙ lookup-insert resource name r' c.cloud_resources
                ∙ rw other refl;
          },
        )
  ]

-- The keys of a dict occur once each.
abbrev pub Distinct : List String → Type 0
Distinct [] = Unit
Distinct (k ∷ ks) = All (λ j. str_eq j k ≡ false) ks × Distinct ks

str_eq_comm : (a b : String) → str_eq a b ≡ false → str_eq b a ≡ false
str_eq_comm a b h = ground (arith, eq_iff a b, eq_iff b a)

not_among :
    (k : String) (ks : List String)
    → All (λ j. str_eq j k ≡ false) ks
    → any (λ j. str_eq j k) ks ≡ false
not_among k [] h = refl
not_among k (j ∷ ks) h = rw h.0 (not_among k ks h.1)

All-imp2 :
    {A : Type 0} {P Q R : A → Type 0}
    → ((a : A) → P a → Q a → R a)
    → (xs : List A) → All P xs
    → All Q xs
    → All R xs
All-imp2 f [] h k = tt
All-imp2 f (x ∷ xs) h k = (f x h.0 k.0, All-imp2 f xs h.1 k.1)

module _ (flavors : List VmFlavor) where
  abbrev filled : CloudResource → CloudResource
  filled r = with_flavors (named_of r flavors) r

  -- Every key has a resource.
  abbrev Present : List String → Config → Type 0
  Present ks c = All (λ k. (r : CloudResource) × (lookup k c.cloud_resources ≡ some r)) ks

  initialised :
      (k : String) (r : CloudResource) (c : Config)
      → lookup k c.cloud_resources ≡ some r
      → (c' : Config) × (init_resource flavors k c ≡ (ok tt, c')) × Filled k (filled r) c c'
  unfolding init_resource
  initialised k r c h =
      let (c', run, f) = added k r.worker_node_flavors flavors r c h in
      let start : init_resource flavors k c
          ≡ for_each flavors (add_if_named k r.worker_node_flavors) c =
        rw h refl in
      (c', start ∙ run, f)

  -- The loop on the resources.
  all_initialised :
      (ks : List String) (c : Config)
      → Distinct ks
      → Present ks c
      → (c' : Config) × (for_each ks (init_resource flavors) c ≡ (ok tt, c'))
        × ((name : String) (r : CloudResource)
            → lookup name c.cloud_resources ≡ some r
            → lookup name c'.cloud_resources
              ≡ some (if any (λ k. str_eq k name) ks then filled r else r))
  unfolding for_each
  all_initialised [] c d p = (c, refl, λ name r h. h)
  all_initialised (k ∷ ks) c d p =
      let (r0, h0) = p.0 in
      let (c1, run1, f) = initialised k r0 c h0 in
      let still : Present ks c1 =
        All-imp2 (λ j other there. (there.0, f.others j (str_eq_comm j k other) ∙ there.1)) ks d.0
          p.1 in
      let (c', run, after) = all_initialised ks c1 d.1 still in
      (
        c',
        ap (λ x. and_then x (λ _. for_each ks (init_resource flavors))) run1 ∙ run,
        λ name r h. elim (Bool-cases (str_eq k name)) [
          | inl e ↦
              let one = (eq_iff k name).0 e in
              let same : r0 ≡ r =
                some-injective r0 r (sym h0 ∙ ap (λ n. lookup n c.cloud_resources) one ∙ h) in
              let there : lookup name c1.cloud_resources ≡ some (filled r) =
                ap (λ n. lookup n c1.cloud_resources) (sym one)
                ∙ f.here
                ∙ ap (λ x. some (filled x)) same in
              let no_more = ap (λ n. any (λ j. str_eq j n) ks) (sym one) ∙ not_among k ks d.0 in
              rw e (
                after name (filled r) there
                ∙ ap (λ b. some (if b then filled (filled r) else filled r)) no_more)
          | inr e ↦ rw e (after name r (f.others name e ∙ h))
        ],
      )

keys_present :
    (d : Dict CloudResource)
    → Distinct (map (λ e. e.0) d)
    → All (λ k. (r : CloudResource) × (lookup k d ≡ some r)) (map (λ e. e.0) d)
unfolding lookup
keys_present [] h = tt
keys_present ((k, r) ∷ d) h = (
  (r, rw (str_eq_refl k) refl),
  All-imp2 (λ j other there. (there.0, rw (str_eq_comm j k other) (there.1))) (map (λ e. e.0) d) h.0
      (keys_present d h.1),
)

key_there :
    (name : String) (r : CloudResource) (d : Dict CloudResource)
    → lookup name d ≡ some r
    → any (λ k. str_eq k name) (map (λ e. e.0) d) ≡ true
unfolding lookup
key_there name r [] h = cc
key_there name r ((k, s) ∷ d) h = elim (Bool-cases (str_eq k name)) [
  | inl e ↦ rw e refl
  | inr e ↦ rw e (key_there name r d (rw e at h))
]

-- The names of the resources being distinct, `_init_cloud_resources` raises nothing and gives each
-- resource, behind those it had, just the flavors of the cloud that the resource names, ordered by
-- their number of cores.
pub init_cloud_resources-named_of :
    (flavors : List VmFlavor) (c : Config) (name : String) (r : CloudResource)
    → Distinct (keys c.cloud_resources)
    → lookup name c.cloud_resources ≡ some r
    → (c' : Config) × (init_cloud_resources flavors c ≡ (ok tt, c'))
      × (lookup name c'.cloud_resources
          ≡ some (record r {
            flavor_objects = r.flavor_objects ++ named_of r (sort_by smaller_first flavors);
          }))
unfolding init_cloud_resources
init_cloud_resources-named_of flavors c name r d h =
    let sorted = sort_by smaller_first flavors in
    let (c', run, after) =
      all_initialised sorted (keys c.cloud_resources) c d (keys_present c.cloud_resources d) in
    (
      c',
      run,
      after name r h
          ∙ ap (λ b. some (if b then with_flavors (named_of r sorted) r else r))
              (key_there name r c.cloud_resources h),
    )
