-- ===== src/JobScheduler/Capacity.antt =====
-- No resource is asked for more cores than it has left, and no node for more than a VM can have.
use dynamictorque.Base.{
  ℕ, ◌+◌, ◌≤◌, ◌≡◌, String, Bool, true, false, not, Option, some, List, [], ◌∷◌, arith, ltb,
}
use dynamictorque.Base.Int.{ℤ, pos, ◌≤ℤ◌, ltb_ℤ}
use dynamictorque.Base.Dict.{lookup}
use dynamictorque.Base.Action.{Post, Post-imp, and_then-Post, if-Post, pure}
use dynamictorque.CloudTools.{ResAllocation, available_cores}
use dynamictorque.Config.{Config, with_resource}
use dynamictorque.JobScheduler.{
  ReqList, node_cores, planned, have_enough_cores, first_fits, top, head_of,
}
use dynamictorque.JobScheduler.Nodes.{cores, Fit}
use dynamictorque.JobScheduler.Frame.{
  Size, size, left_of, top_of, SameSize, available_cores-Post, top-Post,
}

-- The plan for one resource stays within the cores that it has left and the size of its VMs.
abbrev pub NodesWithin : Option Size → List ResAllocation → Type 0
NodesWithin V nodes = (pos (node_cores nodes) ≤ℤ left_of V) × Fit (top_of V) nodes

abbrev pub IsWithin : (String → Option Size) → ReqList → Type 0
IsWithin V req_list =
    (k : String) (nodes : List ResAllocation)
    → lookup k req_list ≡ some nodes
    → NodesWithin (V k) nodes

-- An answer of an action that keeps the sizes of the resources.
abbrev pub Ensures : {A : Type 0} → (String → Option Size) → (A → Type 0) → A → Config → Type 0
Ensures V Q a c = Q a × SameSize V c

-- What the last test of `have_enough_cores` says.
abbrev pub FirstFits : Option Size → List ℕ → Bool → Type 0
FirstFits V reqs b = b ≡ true → (v : ℕ) → head_of reqs ≡ some v → v ≤ top_of V

-- What a true answer of `have_enough_cores` says.
abbrev pub Enough : Option Size → ReqList → String → List ℕ → Bool → Type 0
Enough V req_list account reqs b =
    (b ≡ true → pos (planned account req_list + cores reqs) ≤ℤ left_of V) × FirstFits V reqs b

head_le :
    (v top size : ℕ) → not (ltb top v) ≡ true → top ≤ size → (u : ℕ) → some v ≡ some u → u ≤ size
head_le v top size e h u p = ground arith

enough_lem : (a b : ℤ) (n : ℕ) → a ≡ b → ltb_ℤ a (pos n) ≡ false → pos n ≤ℤ b
enough_lem a b n e h = rw (← e) (ground arith)

module _ (V : String → Option Size) where
  first_fits-Post :
      (account : String) (reqs : List ℕ) (c : Config)
      → SameSize V c
      → Post (Ensures V (FirstFits (V account) reqs)) (SameSize V) (first_fits account reqs c)
  first_fits-Post account [] c h = h
  first_fits-Post account (v ∷ vs) c h =
      and_then-Post (Ensures V (λ n. n ≤ top_of (V account)))
        (Ensures V (FirstFits (V account) (v ∷ vs))) (SameSize V) (top account c)
        (λ n. pure (not (ltb n v))) (top-Post V account c h)
        (λ n c' k. (λ e u eu. head_le v n (top_of (V account)) e k.0 u eu, k.1))

  pub have_enough_cores-Post :
      (req_list : ReqList) (account : String) (reqs : List ℕ) (c : Config)
      → SameSize V c
      → Post
          (Ensures V (Enough (V account) req_list account reqs))
          (SameSize V)
          (have_enough_cores req_list account reqs c)
  unfolding have_enough_cores
  have_enough_cores-Post req_list account reqs c h =
      let Q = Enough (V account) req_list account reqs in
      and_then-Post (Ensures V (λ a. a ≡ left_of (V account))) (Ensures V Q) (SameSize V)
        (with_resource account available_cores c) _ (available_cores-Post V account c h)
        (λ available c' k.
          if-Post (Ensures V Q) (SameSize V)
            (ltb_ℤ available (pos (planned account req_list + cores reqs))) (pure false)
            (first_fits account reqs) c' (λ _. ((λ e. cc, λ e. cc), k.1))
            (λ enough.
              Post-imp (Ensures V (FirstFits (V account) reqs)) (Ensures V Q) _ _
                (first_fits account reqs c')
                (λ b c'' f. ((λ _. enough_lem _ _ _ k.0 enough, f.0), f.1)) (λ _ u. u)
                (first_fits-Post account reqs c' k.1)))
