-- ===== src/Center/Judged.antt =====
-- What `check_cleanup` finds out about the VMs that are being deleted.
use dynamictorque.Base.{
  ℕ, ◌≡◌, refl, ap, arith, false, true, ◌==◌, Option, none, some, [], ◌∷◌, inl, inr, ◌⊎◌,
  Option-cases, Bool-cases, str_eq,
}
use dynamictorque.Base.Dict.{lookup, has_key}
use dynamictorque.Base.Action.{pure, Post, Result, ok, ok-injective, Result-cases}
use dynamictorque.World.{World, checked}
use dynamictorque.Commands.{Node, get_wn_in_torque, release_res_for_node, remove_node_from_torque}
use dynamictorque.Cloud.{Cloud}
use dynamictorque.Center.State.{Center, update}
use dynamictorque.Center.Cleanup.{
  Outcome, add_deleted, add_executing, check_deleting, by_node, in_torque, in_torque_and_cloud,
  not_in_torque, is_delete_due,
}
use dynamictorque.Center.Tracking.{answer_then-Post, Lists, lists, lift_then-Post}

-- The verdict on a VM, by what the cloud says of it.
abbrev pub Verdict : ℕ → Result ℕ → Outcome → Outcome → Type 0
Verdict r answer o o' =
    (o' ≡ o)
    ⊎ (((answer ≡ ok 3) × (o' ≡ add_deleted r o)) ⊎ (¬ (answer ≡ ok 3) × (o' ≡ add_executing r o)))

module _ (w : World) (cloud : Cloud) (r state : ℕ) (o : Outcome) (l : Lists) where
  abbrev Judged : Outcome → Center → Type 0
  Judged o' t = Verdict r (ok state) o o' × (lists t ≡ l)

  abbrev Kept : Center → Type 0
  Kept t = lists t ≡ l

  -- What the cloud answers to a destruction.
  abbrev answer : Center → Result Unit
  answer s = (cloud.vm_destroy s.shell.trace (s.heap r)).0

  is_three : (state == 3) ≡ true → ok state ≡ ok 3
  is_three h = ap ok (ground arith)

  is_not_three : (state == 3) ≡ false → ¬ (ok state ≡ ok 3)
  is_not_three h e = ground (arith, ok-injective e)

  not_in_torque-Judged :
      (s : Center) → Kept s → Post Judged Kept (not_in_torque w cloud r state o s)
  not_in_torque-Judged s h = elim (Bool-cases (state == 3)) [
    | inl e ↦ rw e (inr (inl (is_three e, refl)), h)
    | inr e ↦
        rw e
          (elim (Bool-cases (
            is_delete_due s.shell.config.max_delete_retry_time (s.heap r).delete_time
              (w.now s.shell.trace))) [
                | inl f ↦
                    rw f (
                      answer_then-Post Judged Kept (answer s) (λ _. pure o) _ (λ _. (inl refl, h))
                        h)
                | inr f ↦ rw f (inl refl, h)
              ])
  ]

  in_torque_and_cloud-Judged :
      (node : Node) (s : Center)
      → (state == 3) ≡ false
      → Kept s
      → Post Judged Kept (in_torque_and_cloud w cloud r node o s)
  in_torque_and_cloud-Judged node s other h = elim (Option-cases (lookup "state" node)) [
    | inl e ↦ rw e h
    | inr (x, e) ↦ rw e (elim (Bool-cases (has_key "jobs" node)) [
      | inl f ↦ rw f (elim (Bool-cases (s.heap r).force_off) [
        | inl g ↦ rw g (inl refl, h)
        | inr g ↦ rw g (inr (inr (is_not_three other, refl)), h)
      ])
      | inr f ↦ rw f (
          lift_then-Post Judged Kept (release_res_for_node w (s.heap r)) _ _
            (λ _ _.
              lift_then-Post Judged Kept (remove_node_from_torque w (s.heap r)) _ _
                (λ _ sh.
                  answer_then-Post Judged Kept (answer (record s { shell = sh })) _ _
                    (λ _. (inl refl, h)) h)
                (λ _. h))
            (λ _. h))
    ])
  ]

  in_torque-Judged :
      (node : Node) (s : Center) → Kept s → Post Judged Kept (in_torque w cloud r state node o s)
  in_torque-Judged node s h = elim (Bool-cases (state == 3)) [
    | inl e ↦ rw e (
        lift_then-Post Judged Kept (release_res_for_node w (s.heap r)) _ _
          (λ _ _.
            lift_then-Post Judged Kept (remove_node_from_torque w (s.heap r)) _ _
              (λ _ _. (inl refl, h)) (λ _. h))
          (λ _. h))
    | inr e ↦ rw e (in_torque_and_cloud-Judged node s e h)
  ]

  by_node-Judged :
      (node : Option Node) (s : Center)
      → Kept s
      → Post Judged Kept (by_node w cloud r state node o s)
  by_node-Judged none s h = (inl refl, h)
  by_node-Judged (some []) s h = not_in_torque-Judged s h
  by_node-Judged (some (e ∷ es)) s h = in_torque-Judged (e ∷ es) s h

-- A look at a VM that is being deleted moves nothing. It finds the VM gone only if the cloud says
-- so (state 3), and finds it to run jobs again only if the cloud does not say so.
pub check_deleting-Verdict :
    (w : World) (cloud : Cloud) (o : Outcome) (r : ℕ) (s : Center)
    → Post
        (λ o' t. Verdict r (cloud.vm_check s.shell.trace (s.heap r)).0 o o' × (lists t ≡ lists s))
        (λ t. lists t ≡ lists s)
        (check_deleting w cloud o r s)
unfolding check_deleting
check_deleting-Verdict w cloud o r s =
    elim (Result-cases (cloud.vm_check s.shell.trace (s.heap r)).0) [
      | inr (x, g) ↦ rw g refl
      | inl (state, g) ↦
          let t = record s {
            heap = update s.heap r (cloud.vm_check s.shell.trace (s.heap r)).1;
            shell = record (s.shell) { trace = checked r (ok state) ∷ s.shell.trace };
          } in
          let J = Judged w cloud r state o (lists s) in
          let K = Kept w cloud r state o (lists s) in
          rw g (elim (Bool-cases (str_eq (t.heap r).hostname "")) [
            | inl e ↦ rw e (elim (Bool-cases (state == 3)) [
              | inl f ↦ rw f (inr (inl (is_three w cloud r state o (lists s) f, refl)), refl)
              | inr f ↦ rw f (inl refl, refl)
            ])
            | inr e ↦ rw e (
                lift_then-Post J K (get_wn_in_torque w (t.heap r))
                  (λ node. by_node w cloud r state node o) t
                  (λ node sh.
                    by_node-Judged w cloud r state o (lists s) node (record t { shell = sh }) refl)
                  (λ _. refl))
          ])
    ]
