-- ===== src/AdminClient/Exits.antt =====
-- How the commands of the client end, and what they leave of the resource center.
use mathlib.Core.Path.{subst, sym}
use dynamictorque.Base.{
  ap, ℕ, suc, ◌≡◌, refl, String, true, false, Option, none, some, List, [], ◌∷◌, ◌++◌, ◌⊎◌, inl,
  inr, if_either, str_eq,
}
use dynamictorque.Base.Action.{
  Action, Result, Error, ok, err, Post, and_then, Keeps, pure, gets, fold_each, ◌>>=◌, ◌>>◌,
}
use dynamictorque.Base.Maintained.{Maintains, modify-Maintains}
use dynamictorque.CloudTools.{CloudResource}
use dynamictorque.World.{World}
use dynamictorque.Commands.{Node}
use dynamictorque.Cloud.{Cloud}
use dynamictorque.Center.State.{Center}
use dynamictorque.Center.Admin.{kill_vm}
use dynamictorque.Center.Tracking.{lists}
use dynamictorque.Center.Moves.{Killed, kill_vm-Killed}
use dynamictorque.Daemon.{kill, kill_answer}
use dynamictorque.Base.Dict.{lookup}
use dynamictorque.Info.{CenterInfo, get_info}
use dynamictorque.AdminClient.Console.{Cell, Line, Terminal, print, rpc}
use dynamictorque.AdminClient.Usage.{print_info, show_resource}
use dynamictorque.AdminClient.{
  Options, main, command, exit_code, show_info, watch_info, killed, kill_node,
}
use dynamictorque.AdminClient.Shows.{Introspection}

module _ (c : Center) where
  -- The center is `c`.
  abbrev pub Is : Terminal → Type 0
  Is t = t.center ≡ c

  pub print-Maintains : (line : Line) → Maintains Is (print line)
  print-Maintains line = modify-Maintains _ (λ t h. h)

  -- A call that only answers or raises.
  pub rpc-Maintains :
      {A : Type 0} (m : Action Center A) → Keeps (λ s. s ≡ c) m → Maintains Is (rpc m)
  unfolding rpc
  rpc-Maintains {A} m h = record {
    keeps = λ t k.
        if_either {A = Result A × Terminal} (λ r. Is r.1) t.reached _ _ (λ _. h t.center k)
          (λ _. k);
  }

  pub ask-Maintains : {A : Type 0} (f : Center → A) → Maintains Is (rpc (gets f))
  ask-Maintains f = rpc-Maintains (gets f) (λ s h. h)

  -- The usage is never shown to its end.
  unfoldable pub Failed : {A : Type 0} → Result A × Terminal → Type 0
  Failed = Post (λ _ _. ⊥) Is

  unfoldable pub Fails : {A : Type 0} → Action Terminal A → Type 0
  Fails m = (t : Terminal) → Is t → Failed (m t)

  then-Failed :
      {A B : Type 0} (r : Result A × Terminal) (f : A → Action Terminal B)
      → Failed r
      → Failed (and_then r f)
  unfolding Failed
  then-Failed (ok a, t) f h = absurd h
  then-Failed (err e, t) f h = h

  and_then-Failed :
      {A B : Type 0} (r : Result A × Terminal) (f : A → Action Terminal B)
      → Is r.1
      → ((a : A) → Fails (f a))
      → Failed (and_then r f)
  unfolding Failed Fails
  and_then-Failed (ok a, t) f h k = k a t h
  and_then-Failed (err e, t) f h k = h

  bind-Fails :
      {A B : Type 0} (m : Action Terminal A) (f : A → Action Terminal B)
      → Maintains Is m
      → ((a : A) → Fails (f a))
      → Fails (m >>= f)
  unfolding Fails
  bind-Fails m f h k t e = and_then-Failed (m t) f (h.keeps t e) k

  then-Fails :
      {A B : Type 0} (m : Action Terminal A) (n : Action Terminal B)
      → Maintains Is m
      → Fails n
      → Fails (m >> n)
  unfolding Fails
  then-Fails m n h k t e = and_then-Failed (m t) (λ _. n) (h.keeps t e) (λ _. k)

  show_resource-Fails :
      (info : CenterInfo) (before : List Node × Option (List Node)) (res : String × CloudResource)
      → Fails (show_resource info before res)
  unfolding show_resource lookup Fails Failed
  show_resource-Fails info (internal, before) (res, r) t h = h

  show_all-Fails :
      (info : CenterInfo) (rs : List (String × CloudResource))
      (f : List Node × Option (List Node) → Action Terminal Unit)
      → ((internal : List Node) → Fails (f (internal, none)))
      → Fails (fold_each rs ([], none) (show_resource info) >>= f)
  unfolding Fails Failed fold_each
  show_all-Fails info [] f h t e = h [] t e
  show_all-Fails info (r ∷ rs) f h t e =
      then-Failed (fold_each (r ∷ rs) ([], none) (show_resource info) t) f (
        then-Failed (show_resource info ([], none) r t) _
          (show_resource-Fails info ([], none) r t e))

  pub print_info-Fails : Fails print_info
  unfolding print_info Fails Failed
  print_info-Fails = bind-Fails _ _ (ask-Maintains get_info) (λ info.
      then-Fails _ _ (print-Maintains _) (show_all-Fails info info.cloud_resources _ (λ _ t h. h)))

  exit-Failed :
      (r : Result ℕ × Terminal) → Failed r → ((exit_code r).0 ≡ 1) × ((exit_code r).1.center ≡ c)
  unfolding Failed
  exit-Failed (ok n, t) h = absurd h
  exit-Failed (err e, t) h = (refl, h)

  print_info_then-Failed :
      (f : Unit → Action Terminal ℕ) (t : Terminal) → Is t → Failed (and_then (print_info t) f)
  unfolding Fails
  print_info_then-Failed f t h = then-Failed (print_info t) f (print_info-Fails t h)

  show_info-Failed :
      (continuous : Option String) (n : ℕ) (t : Terminal)
      → Is t
      → Failed (show_info continuous (suc n) t)
  unfolding watch_info
  show_info-Failed none n t h = print_info_then-Failed (λ _. pure 0) t h
  show_info-Failed (some seconds) n t h =
      if_either {A = Action Terminal ℕ} (λ m. Failed (m t)) (str_eq seconds "") _ _
        (λ _. print_info_then-Failed (λ _. pure 0) t h) (λ _. print_info_then-Failed _ t h)

-- The command `--info` fails. It exits with 1, also if it is to go on until it is interrupted (after
-- the first round), and changes nothing.
pub main_info :
    (w : World) (cloud : Cloud) (str : Error → String) (server : Introspection) (rounds : ℕ)
    (o : Options) (t : Terminal)
    → o.info ≡ true
    → ((main w cloud str server (suc rounds) o t).0 ≡ 1)
      × ((main w cloud str server (suc rounds) o t).1.center ≡ t.center)
unfolding main command
main_info w cloud str server rounds o t h =
    exit-Failed t.center (command w cloud str server (suc rounds) o t)
      (rw h (show_info-Failed t.center o.continuous rounds t refl))

-- What a kill by the client has come to: it exits with 0 and the node's VM is being deleted, or
-- with 1 and every VM is in the list where it was.
abbrev pub KillEnds : String → Center → ℕ × Terminal → Type 0
KillEnds name s (code, t) =
    ((code ≡ 0) × Killed name false s t.center) ⊎ ((code ≡ 1) × (lists t.center ≡ lists s))

kill-Ends :
    (name : String) (str : Error → String) (s : Center) (t : Terminal) (x : Result Unit × Center)
    → Post (λ _. Killed name false s) (λ u. lists u ≡ lists s) x
    → KillEnds name s (exit_code (killed (kill_answer str (x.0)) (record t { center = x.1 })))
kill-Ends name str s t (ok u, v) h = inl (refl, h)
kill-Ends name str s t (err e, v) h = inr (refl, h)

module _ (w : World) (cloud : Cloud) (str : Error → String) (server : Introspection)
    (rounds : ℕ) where
  answering-Ends :
      (name : String) (s : Center) (lines : List Line)
      → KillEnds name s (
          exit_code (
            kill_node w cloud str server rounds name
              (record { center = s; reached = true; printed = lines })))
  unfolding kill_node rpc kill
  answering-Ends name s lines =
      kill-Ends name str s
        (record {
          center = s;
          reached = true;
          printed = lines ++ ((Cell.text "killing" ∷ Cell.text name ∷ []) ∷ []);
        })
        (kill_vm w name false s) (kill_vm-Killed w name false s)

  command_kill :
      (o : Options) (name : String)
      → o.info ≡ false
      → o.kill ≡ some name
      → str_eq name "" ≡ false
      → command w cloud str server rounds o ≡ kill_node w cloud str server rounds name
  unfolding command
  command_kill o name h k named = rw h (rw k (rw named refl))

  -- The command `--kill` on a server that answers exits with 0 if `kill_vm` has moved the VM, whose
  -- node ran no jobs, to those that are being deleted, and with 1 if no VM has moved.
  pub main_kill :
      (o : Options) (t : Terminal) (name : String)
      → o.info ≡ false
      → o.kill ≡ some name
      → str_eq name "" ≡ false
      → t.reached ≡ true
      → KillEnds name t.center (main w cloud str server rounds o t)
  unfolding main
  main_kill o t name h k named r = rw (command_kill o name h k named) (
      subst (λ u. KillEnds name t.center (exit_code (kill_node w cloud str server rounds name u)))
        (sym (ap (λ b. record t { reached = b }) r)) (answering-Ends name t.center t.printed))
