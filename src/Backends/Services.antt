-- ===== src/Backends/Services.antt =====
-- Get, create, Ensure and the edge hop of pkg/backends/backends.go.
use ingress_gce.Base.{
  ℕ, Bool, true, ◌&&◌, ◌||◌, not, Option, none, some, List, [], ◌∷◌, ◌++◌, map, Str, codes, str_eq,
  contains, Error, aggregate, Result, ok, err, panic, Failure, if◌then◌else◌,
}
use ingress_gce.Base.Outcome.{wrap}
use ingress_gce.Sets.{elem}
use ingress_gce.Http.{is_http_error_code, is_not_found_error}
use ingress_gce.Namer.{Namer, backend, named_port, instance_group}
use ingress_gce.Pools.{add_item}
use ingress_gce.HealthCheck.{HealthCheck}
use ingress_gce.HealthChecks.{Linked}
use ingress_gce.Backends.{
  rate, utilization, Backend, BackendService, empty_service, ServicePort, Probe, description,
  port_key, retrieve_object_name, backends_for_igs, apply_legacy_hc_to_hc,
  apply_probe_settings_to_hc, Parts, State, Done,
}

-- The sets of links are read only by membership, so they are lists here.
unfoldable pub is_superset : List Str → List Str → Bool
is_superset links [] = true
is_superset links (x ∷ xs) = elem links x && is_superset links xs

unfoldable pub ig_backends : List Backend → List Backend
ig_backends [] = []
ig_backends (b ∷ bs) =
    let rest = ig_backends bs in
    if contains (codes "instanceGroups") b.group then b ∷ rest else rest

unfoldable pub new_igs : List Str → List Str → List Str
new_igs links [] = []
new_igs links (ig ∷ igs) = let rest = new_igs links igs in if elem links ig then rest else ig ∷ rest

-- the only link, or none
unfoldable pub only_link : List Str → Str
only_link [] = []
only_link (link ∷ []) = link
only_link (link ∷ l ∷ ls) = []

unfoldable pub needs_fix : BackendService → Str → ServicePort → Bool
needs_fix be hc_link p =
    not (str_eq be.protocol p.protocol)
    || (not (
          str_eq (retrieve_object_name (only_link be.health_checks)) (retrieve_object_name hc_link))
        || not (str_eq be.description (description p)))

abbrev pub fix : BackendService → Str → ServicePort → BackendService
fix be hc_link p = record be {
  protocol = p.protocol;
  health_checks = hc_link ∷ [];
  description = description p;
}

-- The service of a call that changes it in place: it is changed also where the call fails.
abbrev pub Changed : Type 0 → Type 0
Changed World = Failure × BackendService × World

abbrev pub new_service : Namer → Str → ServicePort → BackendService
new_service n hc_link sp = record {
  name = backend n sp.port;
  description = description sp;
  protocol = sp.protocol;
  health_checks = hc_link ∷ [];
  port = sp.port;
  port_name = named_port sp.port;
  backends = [];
}

module _ {World : Type 0} (B : Parts World) where
  open B use {cloud, health_checker, prober}

  -- The modes in their order; the errors of all of them are printed into one.
  unfoldable pub try_modes :
      List Str → List Backend → List Str → List Error → BackendService → World → Changed World
  try_modes [] original add_igs errs be w = (some (aggregate (wrap errs)), be, w)
  try_modes (bm ∷ bms) original add_igs errs be w =
      let be' = record be { backends = original ++ backends_for_igs add_igs bm } in
      let done = cloud.update_global_backend_service be' w in
      elim done.0 [
        | none ↦ (none, be', done.1)
        | some e ↦
            (let rest = try_modes bms original add_igs (errs ++ e ∷ []) be' done.1 in
              if is_http_error_code (some e) 400 then rest else (some e, be', done.1))
      ]

  unfoldable pub edge_hop : BackendService → List Str → World → Changed World
  edge_hop be igs w =
      let links = map (λ b. Backend.group b) be.backends in
      if is_superset links igs
      then (none, be, w)
      else try_modes (rate ∷ utilization ∷ []) (ig_backends be.backends) (new_igs links igs) [] be w

  -- with the settings of the readiness probe, if there is one
  unfoldable pub sync_probed : Result (Option Probe) → HealthCheck → World → Linked World
  sync_probed (ok none) hc w = health_checker.sync hc w
  sync_probed (ok (some probe)) hc w = health_checker.sync (apply_probe_settings_to_hc probe hc) w
  sync_probed (err e) hc w = (some ([], some e), w)
  sync_probed panic hc w = (none, w)

  unfoldable pub probed : ServicePort → HealthCheck → World → Linked World
  probed sp hc w = elim prober [
    | none ↦ health_checker.sync hc w
    | some get_probe ↦ sync_probed (get_probe sp w) hc w
  ]

  unfoldable pub ensure_health_check : ServicePort → World → Linked World
  ensure_health_check sp w =
      let hc = health_checker.new sp.port sp.protocol sp.neg_enabled in
      elim (health_checker.get_legacy sp.port w) [
        | ok existing ↦ health_checker.sync (apply_legacy_hc_to_hc existing hc) w
        | err e ↦
            if not (is_not_found_error (some e)) then (some ([], some e), w) else probed sp hc w
        | panic ↦ (none, w)
      ]

  -- The error of the deletion of a legacy check is only logged.
  unfoldable pub delete_legacy : Str → Str → ℕ → World → World
  delete_legacy existing_link hc_link port w =
      if not (str_eq existing_link hc_link) && contains (codes "/httpHealthChecks/") existing_link
      then (health_checker.delete_legacy port w).1
      else w

  -- from the comparison of the service's link on, with the service that there was
  unfoldable pub link_groups :
      ServicePort → List Str → Str → Str → BackendService → World → Changed World
  link_groups p [] existing_link hc_link be w =
      (none, be, delete_legacy existing_link hc_link p.port w)
  link_groups p (ig ∷ igs) existing_link hc_link be w =
      let w' = delete_legacy existing_link hc_link p.port w in
      if p.neg_enabled then (none, be, w') else edge_hop be (ig ∷ igs) w'

  -- the service is there
  unfoldable pub check_service :
      ServicePort → List Str → Str → BackendService → World → Changed World
  check_service p igs hc_link be w =
      let existing_link = only_link be.health_checks in
      if needs_fix be hc_link p
      then (let done = cloud.update_global_backend_service (fix be hc_link p) w in
          elim done.0 [
            | none ↦ link_groups p igs existing_link hc_link (fix be hc_link p) done.1
            | some e ↦ (some e, fix be hc_link p, done.1)
          ])
      else link_groups p igs existing_link hc_link be w

  module _ (n : Namer) where
    unfoldable pub get_added :
        ℕ → Result BackendService → State World → Result BackendService × State World
    get_added port (ok be) (pool, w) = (ok be, (add_item (port_key port) (some be) pool, w))
    get_added port (err e) s = (err e, s)
    get_added port panic s = (panic, s)

    unfoldable pub get : ℕ → State World → Result BackendService × State World
    get port s = get_added port (cloud.get_global_backend_service (backend n port) s.1) s

    unfoldable pub create : Str → ServicePort → State World → Result BackendService × State World
    create hc_link sp s =
        let done = cloud.create_global_backend_service (new_service n hc_link sp) s.1 in
        elim done.0 [ none ↦ get sp.port (s.0, done.1) | some e ↦ (err e, (s.0, done.1)) ]

    -- The deferred call: the service that there is then is put into the snapshot, nil or not.
    unfoldable pub track : ServicePort → Option BackendService → State World → State World
    track p be (pool, w) = (add_item (port_key p.port) be pool, w)

    unfoldable pub checked :
        ServicePort → List Str → Str → BackendService → State World → Done (State World)
    checked p igs hc_link be (pool, w) =
        let done = check_service p igs hc_link be w in
        (some done.0, track p (some done.1) (pool, done.2))

    unfoldable pub created :
        ServicePort → List Str → Str → Result BackendService × State World → Done (State World)
    created p igs hc_link (ok be, s) = checked p igs hc_link be s
    created p igs hc_link (err e, s) = (some (some e), track p none s)
    created p igs hc_link (panic, s) = (none, s)

    -- Any error of the lookup is taken for a service that is not there.
    unfoldable pub ensure_service :
        ServicePort → List Str → Str → Result BackendService × State World → Done (State World)
    ensure_service p igs hc_link (ok be, s) = checked p igs hc_link be s
    ensure_service p igs hc_link (err e, s) = created p igs hc_link (create hc_link p s)
    ensure_service p igs hc_link (panic, s) = (none, s)

    unfoldable pub ensure_linked :
        ServicePort → List Str → Option (Str × Failure) → State World → Done (State World)
    ensure_linked p igs none s = (none, s)
    ensure_linked p igs (some (link, some e)) s = (some (some e), track p (some empty_service) s)
    ensure_linked p igs (some (link, none)) s = ensure_service p igs link (get p.port s)

    unfoldable pub ensure_backend_service :
        ServicePort → List Str → State World → Done (State World)
    ensure_backend_service p igs (pool, w) =
        let checked_health = ensure_health_check p w in
        ensure_linked p igs checked_health.0 (pool, checked_health.1)

    unfoldable pub ensure_all : List ServicePort → List Str → State World → Done (State World)
    ensure_all [] igs s = (some none, s)
    ensure_all (p ∷ ps) igs s =
        let first = ensure_backend_service p igs s in
        let rest = ensure_all ps igs first.1 in
        elim first.0 [ some none ↦ rest | some (some e) ↦ first | none ↦ first ]

    unfoldable pub ensure : List ServicePort → Option (List Str) → State World → Done (State World)
    ensure ps (some igs) s = ensure_all ps igs s
    ensure ps none (pool, w) =
        let made =
          B.node_pool.ensure_instance_groups_and_ports (instance_group n)
            (map (λ p. ServicePort.port p) ps) w in
        elim made.0 [
          | ok igs ↦ ensure_all ps igs (pool, made.1)
          | err e ↦ (some (some e), (pool, made.1))
          | panic ↦ (none, (pool, made.1))
        ]
