-- ===== src/JobScheduler/Assign.antt =====
-- A requirement that is assigned to a resource keeps the plan within what the resources have left.
use native.Mathlib.Nat.{le_trans}
use mathlib.Core.Path.{subst}
use mathlib.Core.Option.{some-injective}
use text.Mathlib.TextEquality.{eq_iff}
use dynamictorque.Base.{
  ℕ, ◌+◌, ◌≤◌, ◌≡◌, refl, String, Bool, true, false, not, ◌&&◌, Option, none, some, List, [], ◌∷◌,
  arith, str_eq, opt_str_eq, inl, inr, Option-cases, Bool-cases, All, All-imp,
}
use dynamictorque.Base.Int.{pos, ◌≤ℤ◌}
use dynamictorque.Base.Dict.{lookup, insert, lookup-insert}
use dynamictorque.Base.Action.{Action, Result, ok, err, Post, and_then-Post, if-Post, pure}
use dynamictorque.CloudTools.{ResAllocation}
use dynamictorque.Config.{Config}
use dynamictorque.JobScheduler.{
  ReqList, Requirement, node_cores, planned, new_nodes, have_enough_cores, top,
  add_new_requirement_to_list, extend_nodes, assign, assign_some, fall_back, own_cores,
}
use dynamictorque.JobScheduler.Nodes.{
  cores, Fit, Extended, extend_nodes-Extended, node_cores-new_nodes, new_nodes-Fit,
}
use dynamictorque.JobScheduler.Frame.{Size, size, left_of, top_of, SameSize, top-Post}
use dynamictorque.JobScheduler.Capacity.{
  NodesWithin, IsWithin, Ensures, Enough, have_enough_cores-Post,
}

insert-IsWithin :
    (V : String → Option Size) (account : String) (nodes : List ResAllocation) (req_list : ReqList)
    → IsWithin V req_list
    → NodesWithin (V account) nodes
    → IsWithin V (insert account nodes req_list)
insert-IsWithin V account nodes req_list h new k l e = elim (Bool-cases (str_eq account k)) [
  | inl same ↦
      let found : some nodes ≡ some l = rw (lookup-insert, same) at e in
      subst (λ x. NodesWithin (V x) l) ((eq_iff account k).0 same)
        (subst (λ m. NodesWithin (V account) m) (some-injective nodes l found) new)
  | inr other ↦ h k l (rw (lookup-insert, other) at e)
]

pub planned-none :
    (account : String) (req_list : ReqList)
    → lookup account req_list ≡ none
    → planned account req_list ≡ 0
planned-none account req_list e = rw (e, planned)

pub planned-some :
    (account : String) (req_list : ReqList) (nodes : List ResAllocation)
    → lookup account req_list ≡ some nodes
    → planned account req_list ≡ node_cores nodes
planned-some account req_list nodes e = rw (e, planned)

Extended-NodesWithin :
    (V : String → Option Size) (account : String) (reqs : List ℕ) (nodes : List ResAllocation)
    (n : ℕ)
    → n ≡ node_cores nodes
    → pos (n + cores reqs) ≤ℤ left_of (V account)
    → All (λ v. v ≤ top_of (V account)) reqs
    → Fit (top_of (V account)) nodes
    → (r : Result (List ResAllocation)) → Extended (top_of (V account)) reqs nodes r
    → (c : Config) → SameSize V c
    → Post (Ensures V (NodesWithin (V account))) (SameSize V) (r, c)
Extended-NodesWithin V account reqs nodes n e room small fit (err x) h c k = k
Extended-NodesWithin V account reqs nodes n e room small fit (ok nodes') h c k =
    ((omega (arith, h.0), h.1 fit small), k)

-- A requirement that there is room for keeps the plan within bounds.
add_new_requirement_to_list-Post :
    (V : String → Option Size) (req_list : ReqList) (reqs : List ℕ) (location : Option String)
    (account : String) (c : Config)
    → SameSize V c
    → IsWithin V req_list
    → pos (planned account req_list + cores reqs) ≤ℤ left_of (V account)
    → All (λ v. v ≤ top_of (V account)) reqs
    → Post
        (Ensures V (IsWithin V))
        (SameSize V)
        (add_new_requirement_to_list req_list reqs location account c)
unfolding add_new_requirement_to_list
add_new_requirement_to_list-Post V req_list reqs location account c h within room small =
    elim (Option-cases (lookup account req_list)) [
      | inl new ↦
          rw (new, add_new_requirement_to_list)
            (
              insert-IsWithin V account (new_nodes location reqs) req_list within (
                omega
                    (arith, planned-none account req_list new, node_cores-new_nodes location reqs),
                new_nodes-Fit (top_of (V account)) location reqs small,
              ),
              h,
            )
      | inr (nodes, e) ↦
          let N = Ensures V (NodesWithin (V account)) in
          let keep = λ (n : ℕ) (c' : Config) (k : (n ≤ top_of (V account)) × SameSize V c').
            and_then-Post N (Ensures V (IsWithin V)) (SameSize V)
              (extend_nodes n location reqs nodes, c')
              (λ nodes'. pure (insert account nodes' req_list))
              (Extended-NodesWithin V account reqs nodes (planned account req_list)
                (planned-some account req_list nodes e) room small (within account nodes e).1
                (extend_nodes n location reqs nodes)
                (extend_nodes-Extended (top_of (V account)) n location reqs nodes k.0) c' k.1)
              (λ nodes' c'' w. (insert-IsWithin V account nodes' req_list within w.0, w.1)) in
          rw (e, add_new_requirement_to_list)
            (and_then-Post (Ensures V (λ n. n ≤ top_of (V account))) (Ensures V (IsWithin V))
              (SameSize V) (top account c) _ (top-Post V account c h) keep)
    ]

and_left : (a b : Bool) → (a && b) ≡ true → a ≡ true
and_left a b h = ground arith

module _ (V : String → Option Size) where
  abbrev pub Plans : Action Config ReqList → Type 0
  Plans m = (c : Config) → SameSize V c → Post (Ensures V (IsWithin V)) (SameSize V) (m c)

  small_enough :
      (size v : ℕ) (reqs : List ℕ) → All (λ u. u ≤ v) reqs → v ≤ size → All (λ u. u ≤ size) reqs
  small_enough size v reqs all le = All-imp (λ u h. le_trans h le) reqs all

  add-Enough :
      (req_list : ReqList) (v : ℕ) (vs : List ℕ) (location : Option String) (account : String)
      (b : Bool)
      → IsWithin V req_list
      → All (λ u. u ≤ v) (v ∷ vs)
      → Enough (V account) req_list account (v ∷ vs) b
      → b ≡ true
      → Plans (add_new_requirement_to_list req_list (v ∷ vs) location account)
  add-Enough req_list v vs location account b within all enough e c h =
      add_new_requirement_to_list-Post V req_list (v ∷ vs) location account c h within (enough.0 e)
        (small_enough (top_of (V account)) v (v ∷ vs) all (enough.1 e v refl))

  fall_back-Plans :
      (req_list : ReqList) (v : ℕ) (vs : List ℕ) (location : Option String) (account : String)
      → IsWithin V req_list
      → All (λ u. u ≤ v) (v ∷ vs)
      → Plans (fall_back req_list (v ∷ vs) location account)
  fall_back-Plans req_list v vs location account within all c h =
      and_then-Post (Ensures V (Enough (V "default") req_list "default" (v ∷ vs)))
        (Ensures V (IsWithin V)) (SameSize V) (have_enough_cores req_list "default" (v ∷ vs) c) _
        (have_enough_cores-Post V req_list "default" (v ∷ vs) c h)
        (λ spare c' k.
          if-Post (Ensures V (IsWithin V)) (SameSize V)
            (spare && not (opt_str_eq (some account) location))
            (add_new_requirement_to_list req_list (v ∷ vs) location "default") (pure req_list) c'
            (λ e.
              add-Enough req_list v vs location "default" spare within all k.0 (and_left spare _ e)
                c' k.1)
            (λ _. (within, k.1)))

  own_cores-Post :
      (req_list : ReqList) (reqs : List ℕ) (account : String) (c : Config)
      → SameSize V c
      → Post
          (Ensures V (Enough (V account) req_list account reqs))
          (SameSize V)
          (own_cores req_list reqs account c)
  own_cores-Post req_list reqs account c h =
      if-Post (Ensures V (Enough (V account) req_list account reqs)) (SameSize V)
        (str_eq account "default") (pure false) (have_enough_cores req_list account reqs) c
        (λ _. ((λ e. cc, λ e. cc), h)) (λ _. have_enough_cores-Post V req_list account reqs c h)

  assign-Plans :
      (req_list : ReqList) (v : ℕ) (vs : List ℕ) (location : Option String) (account : String)
      → IsWithin V req_list
      → All (λ u. u ≤ v) (v ∷ vs)
      → Plans (assign req_list (v ∷ vs) location account)
  unfolding assign
  assign-Plans req_list v vs location account within all c h =
      and_then-Post (Ensures V (Enough (V account) req_list account (v ∷ vs)))
        (Ensures V (IsWithin V)) (SameSize V) (own_cores req_list (v ∷ vs) account c) _
        (own_cores-Post req_list (v ∷ vs) account c h)
        (λ own c' k.
          if-Post (Ensures V (IsWithin V)) (SameSize V) own
            (add_new_requirement_to_list req_list (v ∷ vs) location account)
            (fall_back req_list (v ∷ vs) location account) c'
            (λ e. add-Enough req_list v vs location account own within all k.0 e c' k.1)
            (λ _. fall_back-Plans req_list v vs location account within all c' k.1))

  -- All nodes of a requirement ask for as many cores as the first, or fewer.
  abbrev pub IsUniform : Requirement → Type 0
  IsUniform (none, _, _) = Unit
  IsUniform (some [], _, _) = Unit
  IsUniform (some (v ∷ vs), _, _) = All (λ u. u ≤ v) (v ∷ vs)

  pub assign_some-Plans :
      (req_list : ReqList) (r : Requirement) (account : String)
      → IsWithin V req_list
      → IsUniform r
      → Plans (assign_some req_list r account)
  assign_some-Plans req_list (none, location, a) account within u c h = (within, h)
  assign_some-Plans req_list (some [], location, a) account within u c h = (within, h)
  assign_some-Plans req_list (some (v ∷ vs), location, a) account within u c h =
      assign-Plans req_list v vs location account within u c h
