-- ===== src/Neg/Manager/Tests.antt =====
-- The manager of one service with one port.
use ingress_gce.Base.{
  ◌≡◌, refl, true, false, none, some, [], ◌∷◌, Str, codes, str_eq, plain, Failure, new_aggregate,
}
use ingress_gce.Base.Maps.{get, put}
use ingress_gce.Sets.{elem}
use ingress_gce.Sets.Listed.{list_sets}
use ingress_gce.Neg.Syncer.{add_failure}
use ingress_gce.Neg.Lifecycle.{Syncer, new_syncer, start, fresh, syncing, closed}
use ingress_gce.Neg.Manager.{
  ServiceKey, ServiceKey_Eq, service_port_eq, Manager, syncer_key, syncer_of, stop_ports,
  start_ports, start_port, ports_of, ensure_syncers,
}
use ingress_gce.Neg.Manager.Again.{ensure_syncers-again}
use ingress_gce.Neg.Manager.Entries.{Managed}
use ingress_gce.Neg.Manager.Safety.{collects, call, call-Managed}
use ingress_gce.Neg.Manager.Ports.{IsRunning, IsHalted}
use ingress_gce.Neg.Manager.Running.{ensure_syncers-IsRunning}

abbrev web : ServiceKey
web = record { namespace = codes "default"; name = codes "web" }

abbrev port80 : list_sets.Set
port80 = list_sets.insert list_sets.empty (codes "80")

abbrev no_services : Manager list_sets
no_services = record { svc_port_map = []; syncer_map = [] }

abbrev one_service : Manager list_sets
one_service = record {
  svc_port_map = (web, port80) ∷ [];
  syncer_map = (syncer_key web (codes "80"), (start new_syncer).1) ∷ [];
}

ensured : ensure_syncers list_sets web port80 no_services ≡ some (none, one_service)
unfolding ensure_syncers list_sets ports_of stop_ports start_ports start_port syncer_of get put elem
    start add_failure
ensured = refl

no_ports :
    (port : Str)
    → list_sets.has (ports_of list_sets web no_services) port ≡ true
    → IsRunning web port []
unfolding ports_of get list_sets elem
no_ports port h = cc

ensure_syncers-IsRunning_example :
    (list_sets.has port80 (codes "80") ≡ true → IsRunning web (codes "80") one_service.syncer_map)
    × (list_sets.has (ports_of list_sets web no_services) (codes "80") ≡ true
        → list_sets.has port80 (codes "80") ≡ false
        → IsHalted web (codes "80") one_service.syncer_map)
ensure_syncers-IsRunning_example =
    ensure_syncers-IsRunning list_sets web port80 no_services one_service ensured no_ports
      (codes "80")

-- a syncer that was stopped, and whose goroutine has not ended yet
abbrev stopping : Syncer
stopping = record {
  stopped = true;
  shutting_down = true;
  sync_ch = closed false;
  last_retry_delay = 0;
  retry_count = 0;
  loop = syncing;
}

abbrev stopped_service : Manager list_sets
stopped_service = record {
  svc_port_map = [];
  syncer_map = (syncer_key web (codes "80"), stopping) ∷ [];
}

abbrev stuck_service : Manager list_sets
stuck_service = record {
  svc_port_map = (web, port80) ∷ [];
  syncer_map = (syncer_key web (codes "80"), stopping) ∷ [];
}

abbrev shutting_down_error : Failure
shutting_down_error = new_aggregate (plain (codes "NEG syncer is shutting down") ∷ [])

refused :
    ensure_syncers list_sets web port80 stopped_service ≡ some (shutting_down_error, stuck_service)
unfolding ensure_syncers list_sets ports_of stop_ports start_ports start_port syncer_of get put elem
    start add_failure service_port_eq str_eq
refused = refl

ensure_syncers-again_example :
    (m : Manager list_sets) × (ensure_syncers list_sets web port80 stuck_service ≡ some (none, m))
    × (m.syncer_map ≡ stuck_service.syncer_map)
ensure_syncers-again_example =
    ensure_syncers-again list_sets web port80 stopped_service stuck_service shutting_down_error
      refused

-- a service whose syncer is stopped and has no goroutine
abbrev idle_service : Manager list_sets
idle_service = record {
  svc_port_map = [];
  syncer_map = (syncer_key web (codes "80"), new_syncer) ∷ [];
}

idle_service-Managed : Managed idle_service.syncer_map
unfolding get
idle_service-Managed = ((fresh, tt), (refl, tt))

call-Managed_example :
    (f : Failure) × (m : Manager list_sets) × (call list_sets collects idle_service ≡ some (f, m))
    × Managed m.syncer_map
call-Managed_example = call-Managed list_sets collects idle_service idle_service-Managed
