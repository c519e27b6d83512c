-- ===== src/Daemon.antt =====
-- The threads of the daemon: `JobPoller` of dynamictorque/cluster_management.py, `CloudPoller` of
-- dynamictorque/cloud_management.py, the functions of dynamictorque/info_server.py, and the main
-- thread of dynamictorque.py. A run is a sequence of events in any order; each is one turn of a
-- thread's loop, whose calls of the resource center are not interrupted.
pub mod Turns
pub mod Kept
use dynamictorque.Base.{
  ℕ, zero, suc, String, Bool, true, false, ◌&&◌, List, [], ◌∷◌, leb, ◌==◌, map, if◌then◌else◌,
}
use dynamictorque.Base.Action.{Action, Result, ok, err, Error, pure, gets, ◌>>=◌, ◌>>◌}
use dynamictorque.World.{World}
use dynamictorque.Commands.{dump_nodes_to_persistent_file}
use dynamictorque.Cloud.{Cloud}
use dynamictorque.Center.State.{Center, lift}
use dynamictorque.Center.Admin.{toggle_sleep_mode, kill_vm, forceoff}
use dynamictorque.Center.Cleanup.{check_cleanup}
use dynamictorque.Center.Provision.{update_provision_status}
use dynamictorque.Center.Jobs.{collect_cluster_information}

-- A thread that polls. `tics` is its `sleep_tics`, and it is not alive once it has left its loop.
pub record Poller : Type 0 where
  pub tics : ℕ
  pub quit : Bool
  pub alive : Bool

abbrev pub new_poller : Poller
new_poller = record { tics = 0; quit = false; alive = true }

-- `stop`
abbrev pub stop : Poller → Poller
stop p = record p { quit = true }

-- `sleep_tics` after a second
abbrev pub next_tics : ℕ → ℕ → ℕ
next_tics polling_interval tics = if leb polling_interval (suc tics) then 0 else suc tics

module _ {S : Type 0} (polling_interval : ℕ) where
  -- An exception ends the thread.
  abbrev pub after_poll : Poller → Result Unit × S → Poller × S
  after_poll p (ok u, s) = (record p { tics = next_tics polling_interval p.tics }, s)
  after_poll p (err e, s) = (record p { alive = false }, s)

  -- One turn of the loop of a `run` that polls by `poll`, and does `leave` behind the loop.
  unfoldable pub turn : Action S Unit → Action S Unit → Poller → S → Poller × S
  turn poll leave p s =
      if p.alive
      then if p.quit
        then (record p { alive = false }, (leave s).1)
        else if p.tics == 0
        then after_poll p (poll s)
        else (record p { tics = next_tics polling_interval p.tics }, s)
      else (p, s)

-- What `kill` answers over XML-RPC: `(0, "")`, or `(1, str(e))`.
abbrev pub kill_answer : (Error → String) → Result Unit → ℕ × String
kill_answer str (ok u) = (0, "")
kill_answer str (err e) = (1, str e)

module _ (w : World) (cloud : Cloud) where
  -- The body of `JobPoller.run`, and what it does after its loop.
  abbrev pub poll_jobs : Action Center Unit
  poll_jobs = collect_cluster_information w cloud

  abbrev pub leave_jobs : Action Center Unit
  leave_jobs = do
    existing ← gets (λ s. map s.heap s.existing_instances)
    lift (dump_nodes_to_persistent_file w existing)

  -- The body of `CloudPoller.run`.
  unfoldable pub poll_cloud : Action Center Unit
  poll_cloud = do
    provisioning ← gets (λ s. s.provisioning)
    if provisioning then update_provision_status w cloud else pure tt
    check_cleanup w cloud

  unfoldable pub kill : (Error → String) → String → Action Center (ℕ × String)
  kill str vm_name s = let (r, t) = kill_vm w vm_name false s in (ok (kill_answer str r), t)

pub record System : Type 0 where
  pub center : Center
  pub job_poller : Poller
  pub cloud_poller : Poller
  pub running : Bool

-- A turn of a poller, a call over XML-RPC, a look of the main thread at its threads, and a signal.
pub data Event : Type 0 where
  job_turn cloud_turn : Event
  rpc_kill : String → Event
  rpc_forceoff rpc_toggle_sleep_mode : Event
  watched interrupted : Event

abbrev pub both_alive : System → Bool
both_alive sys = sys.job_poller.alive && sys.cloud_poller.alive

-- The main thread behind its loop: an exception of `forceoff` leaves the threads as they are.
abbrev pub quit_all : System → Result Unit × Center → System
quit_all sys (ok u, s) = record sys {
  center = s;
  job_poller = stop sys.job_poller;
  cloud_poller = stop sys.cloud_poller;
  running = false;
}
quit_all sys (err e, s) = record sys { center = s; running = false }

-- The intervals are `job_poller_interval` and `cloud_poller_interval`.
module _ (w : World) (cloud : Cloud) (job_interval cloud_interval : ℕ) where
  abbrev pub shut : System → System
  shut sys = if sys.running then quit_all sys (forceoff w cloud sys.center) else sys

  unfoldable pub step : Event → System → System
  unfolding turn
  step job_turn sys =
      let (p, s) =
        turn job_interval (poll_jobs w cloud) (leave_jobs w cloud) sys.job_poller sys.center in
      record sys { center = s; job_poller = p }
  step cloud_turn sys =
      let (p, s) = turn cloud_interval (poll_cloud w cloud) (pure tt) sys.cloud_poller sys.center in
      record sys { center = s; cloud_poller = p }
  step (rpc_kill name) sys = record sys { center = (kill_vm w name false sys.center).1 }
  step rpc_forceoff sys = record sys { center = (forceoff w cloud sys.center).1 }
  step rpc_toggle_sleep_mode sys = record sys { center = (toggle_sleep_mode sys.center).1 }
  step watched sys = if both_alive sys then sys else shut sys
  step interrupted sys = shut sys
