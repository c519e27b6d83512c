-- ===== src/Tests/Clients.antt =====
-- Commands of the administration client on the small installation.
use dynamictorque.Base.{◌≡◌, refl, true, false, none, some, [], ◌∷◌, String}
use dynamictorque.Base.Action.{Error}
use dynamictorque.AdminClient.Console.{Terminal}
use dynamictorque.AdminClient.{Options, main}
use dynamictorque.AdminClient.Shows.{Introspection}
use dynamictorque.AdminClient.Exits.{KillEnds, main_info, main_kill}
use dynamictorque.AdminClient.Metrics.{Shows, show_ganglia-gauges}
use dynamictorque.Info.{data_of, fetch_info, get_info}
use dynamictorque.AdminClient.Reads.{main-Reads}
use dynamictorque.Tests.Fixtures.{world, cloud, center}

abbrev terminal : Terminal
terminal = record { center = center; reached = true; printed = [] }

abbrev no_options : Options
no_options = record {
  info = false;
  continuous = none;
  kill = none;
  detail = none;
  method = false;
  list = false;
  listnew = false;
  tenant = none;
  forceoff = false;
  ganglia = false;
  sleep = false;
}

abbrev with_info : Options
with_info = record no_options { info = true; continuous = some "5" }

abbrev with_kill : Options
with_kill = record no_options { kill = some "wn0" }

abbrev with_ganglia : Options
with_ganglia = record no_options { ganglia = true }

abbrev shown : Error → String
shown e = "error"

abbrev introspection : Introspection
introspection = record { methods = "info" ∷ []; help = λ _. ""; signature = λ _. "" }

main_info_example :
    ((main world cloud shown introspection 3 with_info terminal).0 ≡ 1)
    × ((main world cloud shown introspection 3 with_info terminal).1.center ≡ center)
main_info_example = main_info world cloud shown introspection 2 with_info terminal refl

main_kill_example :
    KillEnds "wn0" center (main world cloud shown introspection 3 with_kill terminal)
main_kill_example =
    main_kill world cloud shown introspection 3 with_kill terminal "wn0" refl refl refl refl

main-Reads_example :
    (main world cloud shown introspection 3 with_ganglia terminal).1.center ≡ center
main-Reads_example =
    main-Reads world cloud shown introspection 3 with_ganglia terminal refl refl refl

abbrev without_nodes : Terminal
without_nodes = record terminal { center = record center { worker_nodes = [] } }

show_ganglia-gauges_example : Shows without_nodes (data_of (get_info without_nodes.center) 0)
unfolding fetch_info get_info
show_ganglia-gauges_example =
    show_ganglia-gauges without_nodes (data_of (get_info without_nodes.center) 0) refl refl
