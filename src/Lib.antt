-- ===== src/Lib.antt =====
-- Dynamic Torque starts virtual machines in an OpenStack cloud when a TORQUE cluster has jobs that
-- wait, and destroys them when they are idle. This library models the daemon's own logic, the
-- package dynamictorque/ of the repository with dynamictorque.py, and two programs that ask it, the
-- plugin dt_info.py and the client admin.py.
--
-- The parts and their files:
--
-- - Base: shared names; Base/Action has Python statements as actions on a state, `S → Result A × S`,
--   where a raise keeps the state that was reached, with the rules of a call (`Post`) and of a loop
--   (`fold_each`, `for_each`); Base/Maintained has the rules for a predicate that actions keep.
--   Base/Dict is a dict as an association list, Base/Sort the stable `list.sort`, Base/Int integers
--   for counts of nodes that may fall below zero.
-- - CloudTools, for dynamictorque/cloud_tools.py: `VM` is `Vm`, `VMFlavor` is `VmFlavor`, and
--   `CloudResource`, `ResAllocation`, `ProvisionVM` and `StaticVMs` (CloudTools/Static) are so named.
-- - Config, for dynamictorque/config.py: the settings that the daemon reads while it runs, as a
--   record, since `cloud_resources` changes, and the functions on locations. Config/File is what a
--   `ConfigParser` gives, Config/Setup is `setup`, Config/Resources
--   `parse_cloud_resources_config_file`, both over `Settings`, all variables of the module;
--   Config/Refused is about them.
-- - JobScheduler, for dynamictorque/job_scheduler.py: `calculate_new_instances` and all that it
--   calls; its loop on the jobs is `plan_jobs`. Children: Nodes, BestFlavor, Frame, Capacity,
--   Assign, Plan.
-- - World: what the program talks to (processes, clock, XML parser, files, `random`), as functions
--   of the calls made before, and the trace of these calls.
-- - Commands, for dynamictorque/local_commands.py: the commands of TORQUE and Maui; Commands/Parse
--   has what is read from their output; Commands/Queue and Commands/Ordered are about it.
-- - Cloud: the interface `ICloud` of cloud_tools.py, as a record of functions.
-- - OpenStack, for dynamictorque/openstack_cloud.py: `OpenStackCloud`, over the OpenStack client
--   (OpenStack/Client), whose answers are a parameter; OpenStack/Firewall has the two operations on
--   security groups. A `Session` is the VM at hand with the calls made so far, and OpenStack/Backend
--   makes a `Cloud` of it. Laws, States, Joint and Rules are about it.
-- - CloudManager, for the class of this name in dynamictorque/cloud_management.py: the choice of the
--   cloud and the flavors of the resources; CloudManager/Flavors is about it.
-- - Center, for dynamictorque/res_management.py: `ResourceCenter` is the record `Center`
--   (Center/State). VMs are objects that several lists share: the lists hold references, and `heap`
--   says what each is. Load has `_load_existing_worker_nodes`, with the loop of
--   `load_all_existing_worker_nodes` of cloud_management.py, Admin has `kill_vm` and `forceoff`,
--   Jobs `collect_cluster_information`, WorkerNodes `check_existing_worker_nodes`, Cores the count
--   of available nodes, Launch `launch_instances`, Provision `update_provision_status`, Cleanup
--   `check_cleanup`. The other children are about these.
-- - Daemon: the threads, which are `CloudPoller` of cloud_management.py, `JobPoller` of
--   cluster_management.py, the functions of info_server.py, and the main thread of
--   dynamictorque.py. An `Event` is a turn of one of them, and a run is a sequence of events in any
--   order. Daemon/Turns and Daemon/Kept are about them.
-- - Info: what `get_info` answers, and what dt_info.py makes of it; Info/Sums is about it.
-- - AdminClient, for admin.py: AdminClient/Console is what it runs on, a `Terminal` with the center
--   behind the info server and the lines printed, AdminClient/Usage is `print_info`,
--   AdminClient/Shows the other commands that only print. Exits,
--   Reads and Metrics are about it.
-- - Tests: a small installation, and runs of the code on it.
--
-- `setup` reads the settings and the resources, `CloudManager` fills in their flavors, and the
-- center takes over the VMs that the cloud lists. Then the job poller calls
-- `collect_cluster_information`, which plans by `calculate_new_instances` and puts requests on
-- `provision_waiting_list`; the cloud poller calls `update_provision_status` and `check_cleanup`,
-- which start VMs from that list and move VMs between the lists.
--
-- Times are in whole seconds. Loops are structural recursions on the lists that they run over; the
-- two loops of attempts in `update_provision_status` recurse on the attempts that are left, 5 and
-- 60 as in the source, so that no fuel is chosen; the loop of `_open_connection`, which has no
-- limit in the source, recurses on the attempts that fail, a number that the client gives, so that
-- a cloud that never answers is left out. Log
-- messages and pauses are left out. A failed `remove` raises `ValueError`, a missing key `KeyError`,
-- and so on, as values of `Error`.
--
-- Not modelled: an interleaving inside one turn of a thread and the locks against it, the transport
-- of XML-RPC, the command line, logging and forking of the daemon, negative numbers in the
-- configuration file, the layout of what admin.py prints, and the script test.py.
pub mod Base
pub mod CloudTools
pub mod Config
pub mod JobScheduler
pub mod World
pub mod Commands
pub mod Cloud
pub mod Center
pub mod CloudManager
pub mod OpenStack
pub mod Daemon
pub mod Info
pub mod AdminClient
pub mod Tests
