-- ===== src/Center/Moves.antt =====
-- `kill_vm` and `forceoff`: how VMs reach the list of those that are being deleted.
use Prim.Native.String.{◌++◌ as ◌<>◌}
use dynamictorque.Base.{
  arith, ℕ, ◌≡◌, refl, String, Bool, false, not, ◌&&◌, none, some, List, [], ◌∷◌, ◌++◌, inl, inr,
  ◌⊎◌, Option-cases, ap, ◌∙◌, Bool-cases, remove, if◌then◌else◌,
}
use dynamictorque.Base.Dict.{lookup, has_key}
use dynamictorque.Base.Action.{
  ok, Post, raise, exception, for_each-Post, Post-imp, and_then-Post, Result-cases, for_each,
}
use dynamictorque.CloudTools.{Vm}
use dynamictorque.World.{World, Shell}
use dynamictorque.Commands.{
  Node, node_named, check_node, hold_node_in_torque, remove_node_from_torque,
  remove_node_from_hosts_file, remove_node_from_known_hosts_file,
}
use dynamictorque.Cloud.{Cloud}
use dynamictorque.Center.State.{Center, vm_destroy, remove_existing, update}
use dynamictorque.Center.Admin.{find_vm, get_detail, kill_vm, hold_and_delete, forceoff, shut_down}
use dynamictorque.Center.Tracking.{Lists, lists, lift_then-Post, remove-find, answer-Post}

-- What a successful `kill_vm` has done.
pub record Killed (name : String) (force : Bool) (s t : Center) : Type 0 where
  pub vm : ℕ
  pub node : Node
  pub found : find_vm name s ≡ some vm
  pub knows_node : node_named (s.heap vm).hostname s.worker_nodes ≡ ok (some node)
  pub idle_or_forced : (has_key "jobs" node && not force) ≡ false
  pub leaves_existing : remove vm s.existing_instances ≡ some t.existing_instances
  pub keeps_starting : t.starting_instances ≡ s.starting_instances
  pub enters_deleting : t.deleting_instances ≡ s.deleting_instances ++ (vm ∷ [])
  pub is_marked : (t.heap vm).force_off ≡ force

update-same : (heap : ℕ → Vm) (r : ℕ) (v : Vm) → update heap r v r ≡ v
update-same heap r v = ground arith

module _ (w : World) (name : String) (force : Bool) (s : Center) where
  Unmoved : Center → Type 0
  Unmoved t = lists t ≡ lists s

  hold_and_delete-Killed :
      (r : ℕ) (node : Node) (sh : Shell)
      → find_vm name s ≡ some r
      → node_named (s.heap r).hostname s.worker_nodes ≡ ok (some node)
      → (has_key "jobs" node && not force) ≡ false
      → Post
          (λ _. Killed name force s)
          Unmoved
          (hold_and_delete w r force (record s { shell = sh }))
  unfolding hold_and_delete Unmoved remove_existing
  hold_and_delete-Killed r node sh found knows idle =
      let (l, gone) = remove-find _ s.existing_instances r found in
      let marked = record (s.heap r) { force_off = force } in
      lift_then-Post (λ _. Killed name force s) Unmoved (hold_node_in_torque w _) _ _
        (λ _ sh'.
          rw (gone, remove_existing)
            (record {
              vm = r;
              node = node;
              found = found;
              knows_node = knows;
              idle_or_forced = idle;
              leaves_existing = gone;
              keeps_starting = refl;
              enters_deleting = refl;
              is_marked = ap (λ v. v.force_off) (update-same s.heap r marked);
            }))
        (λ _. refl)

-- A kill that succeeds moves the first existing VM of that host name to the list of those that are
-- being deleted and marks it; its node was known, and ran no jobs unless the kill was forced. A
-- kill that raises leaves every VM in the list where it was.
pub kill_vm-Killed :
    (w : World) (name : String) (force : Bool) (s : Center)
    → Post (λ _. Killed name force s) (λ t. lists t ≡ lists s) (kill_vm w name force s)
unfolding kill_vm get_detail Unmoved
kill_vm-Killed w name force s = elim (Option-cases (find_vm name s)) [
  | inl e ↦ rw (e, find_vm) refl
  | inr (r, e) ↦ elim (Result-cases (node_named (s.heap r).hostname s.worker_nodes)) [
    | inr (x, f) ↦ rw e (rw f refl)
    | inl (none, f) ↦ rw e (rw f refl)
    | inl (some node, f) ↦ rw e (
        rw f (elim (Option-cases (lookup "name" node)) [
          | inl g ↦ rw g refl
          | inr (n, g) ↦ rw g (
              lift_then-Post (λ _. Killed name force s) (λ t. lists t ≡ lists s) (check_node w n)
                (λ _.
                  if has_key "jobs" node && not force
                  then raise (exception (name <> " is busy, can't be killed"))
                  else hold_and_delete w r force)
                s
                (λ _ sh. elim (Bool-cases (has_key "jobs" node && not force)) [
                  | inl busy ↦ rw busy refl
                  | inr idle ↦ rw idle (hold_and_delete-Killed w name force s r node sh e f idle)
                ])
                (λ _. refl))
        ]))
  ]
]

module _ (l : Lists) (w : World) (cloud : Cloud) where
  unfoldable pub Is : Center → Type 0
  Is t = lists t ≡ l

  pub shut_down-Is : (r : ℕ) (s : Center) → Is s → Post (λ _. Is) Is (shut_down w cloud r s)
  unfolding shut_down Is
  shut_down-Is r s h =
      lift_then-Post (λ _. Is) Is (remove_node_from_torque w _) _ _
        (λ _ _.
          lift_then-Post (λ _. Is) Is (remove_node_from_hosts_file w _) _ _
            (λ _ _.
              lift_then-Post (λ _. Is) Is (remove_node_from_known_hosts_file w _) _ _
                (λ _ _. answer-Post Is _ _ h) (λ _. h))
            (λ _. h))
        (λ _. h)

  shut_all-Is :
      (rs : List ℕ) (s : Center) → Is s → Post (λ _. Is) Is (for_each rs (shut_down w cloud) s)
  shut_all-Is rs s h =
      for_each-Post (λ _. Is) Is (shut_down w cloud) (λ r _ t k. shut_down-Is r t k) rs s h

  destroy_all-Is :
      (rs : List ℕ) (s : Center) → Is s → Post (λ _. Is) Is (for_each rs (vm_destroy cloud) s)
  unfolding Is
  destroy_all-Is rs s h =
      for_each-Post (λ _. Is) Is (vm_destroy cloud) (λ r _ t k. answer-Post Is _ _ k) rs s h

-- What a successful `forceoff` leaves of the lists.
abbrev pub AllDeleting : Center → Center → Type 0
AllDeleting s t =
    (t.existing_instances ≡ [])
    × (t.starting_instances ≡ [])
    × (t.deleting_instances
        ≡ (s.deleting_instances ++ s.existing_instances) ++ s.starting_instances)

all_deleting :
    (s t : Center) (l : Lists)
    → l ≡ lists s
    → lists t ≡ record { existing = []; starting = l.starting; deleting = l.deleting ++ l.existing }
    → AllDeleting s (record t {
      deleting_instances = t.deleting_instances ++ t.starting_instances;
      starting_instances = [];
    })
all_deleting s t l h k = (
  ap (λ x. x.existing) k,
  refl,
  ap (λ x. x.deleting ++ x.starting) k ∙ ap (λ x. (x.deleting ++ x.existing) ++ x.starting) h,
)

-- The VMs that existed are being deleted, and those that start still start.
abbrev pub ExistingDeleting : Center → Center → Type 0
ExistingDeleting s t =
    (t.existing_instances ≡ [])
    × (t.starting_instances ≡ s.starting_instances)
    × (t.deleting_instances ≡ s.deleting_instances ++ s.existing_instances)

-- The shutdown of everything leaves no VM that exists or starts: all of them are being deleted,
-- behind those that were before. If a step raises, either the lists are as they were, or the VMs
-- that existed are being deleted, behind those that were before, and the others still start.
pub forceoff-AllDeleting :
    (w : World) (cloud : Cloud) (s : Center)
    → Post
        (λ _. AllDeleting s)
        (λ t. (lists t ≡ lists s) ⊎ ExistingDeleting s t)
        (forceoff w cloud s)
unfolding forceoff Is
forceoff-AllDeleting w cloud s =
    let E : Center → Type 0 = λ t. (lists t ≡ lists s) ⊎ ExistingDeleting s t in
    and_then-Post (λ _ t. lists t ≡ lists s) (λ _. AllDeleting s) E
      (for_each s.existing_instances (shut_down w cloud) s) _
      (Post-imp (λ _ t. lists t ≡ lists s) (λ _ t. lists t ≡ lists s) (λ t. lists t ≡ lists s) E _
        (λ _ _ h. h) (λ _ h. inl h) (shut_all-Is (lists s) w cloud s.existing_instances s refl))
      (λ _ t h.
        let t' = record t {
          deleting_instances = t.deleting_instances ++ t.existing_instances;
          existing_instances = [];
        } in
        and_then-Post (λ _ u. lists u ≡ lists t') (λ _. AllDeleting s) E
          (for_each t.starting_instances (vm_destroy cloud) t') _
          (Post-imp (λ _ u. lists u ≡ lists t') (λ _ u. lists u ≡ lists t')
            (λ u. lists u ≡ lists t') E _ (λ _ _ k. k)
            (λ u k. inr (
              ap (λ x. x.existing) k,
              ap (λ x. x.starting) k ∙ ap (λ x. x.starting) h,
              ap (λ x. x.deleting) k ∙ ap (λ x. x.deleting ++ x.existing) h,
            ))
            (destroy_all-Is (lists t') w cloud t.starting_instances t' refl))
          (λ _ u k. all_deleting s u (lists t) h k))
