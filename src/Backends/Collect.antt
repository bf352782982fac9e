-- ===== src/Backends/Collect.antt =====
-- Delete, GC, Shutdown, List and the key of a service, of pkg/backends/backends.go.
use ingress_gce.Base.{
  ℕ, ◌||◌, none, some, List, [], ◌∷◌, map, Str, codes, plain, Result, ok, err, panic, Failure, not,
  if◌then◌else◌,
}
use ingress_gce.Sets.{elem}
use ingress_gce.Http.{status_not_found, is_http_error_code}
use ingress_gce.Namer.{Namer, backend, backend_port, name_belongs_to_cluster}
use ingress_gce.Pools.{snapshot, delete_item}
use ingress_gce.Backends.{BackendService, ServicePort, port_key, parse_port, Parts, State}

-- The key of a service that is listed in the cloud.
unfoldable pub service_key : Namer → BackendService → Result Str
service_key n bs =
    if not (name_belongs_to_cluster n bs.name)
    then err (plain (codes "unrecognized name"))
    else elim (backend_port bs.name) [ none ↦ err (plain (codes "no port")) | some port ↦ ok port ]

unfoldable pub known_ports : List ServicePort → List Str
known_ports ps = map (λ p. port_key (ServicePort.port p)) ps

module _ {World : Type 0} (B : Parts World) (n : Namer) where
  open B use {cloud, health_checker}

  -- the deferred end of Delete
  unfoldable pub forget : ℕ → Failure → State World → Failure × State World
  forget port none (pool, w) = (none, (delete_item (port_key port) pool, w))
  forget port (some e) (pool, w) =
      if is_http_error_code (some e) status_not_found
      then (none, (delete_item (port_key port) pool, w))
      else (some e, (pool, w))

  unfoldable pub delete : ℕ → State World → Failure × State World
  delete port (pool, w) =
      let done = cloud.delete_global_backend_service (backend n port) w in
      let health = health_checker.delete port done.1 in
      elim done.0 [
        | none ↦ forget port health.0 (pool, health.1)
        | some e ↦
            if not (is_http_error_code (some e) status_not_found)
            then forget port (some e) (pool, done.1)
            else forget port health.0 (pool, health.1)
      ]

  -- a port that is neither known nor ignored
  unfoldable pub collect_port : List Str → List Str → ℕ → State World → Failure × State World
  collect_port known ignored port s =
      if elem known (port_key port) || elem ignored (port_key port)
      then (none, s)
      else delete port s

  -- The error of a deletion is never that the service is not found.
  unfoldable pub collect_keys : List Str → List Str → List Str → State World → Failure × State World
  collect_keys known ignored [] s = (none, s)
  collect_keys known ignored (key ∷ keys) s = elim (parse_port key) [
    | err e ↦ (some e, s)
    | panic ↦ (none, s)
    | ok port ↦
        (let done = collect_port known ignored port s in
          let rest = collect_keys known ignored keys done.1 in
          elim done.0 [
            | none ↦ rest
            | some e ↦
                if not (is_http_error_code (some e) status_not_found)
                then (some e, done.1)
                else rest
          ])
  ]

  unfoldable pub gc : List Str → List ServicePort → State World → Failure × State World
  gc ignored ps s = collect_keys (known_ports ps) ignored (map (λ e. e.0) (snapshot s.0)) s

  unfoldable pub shutdown : List Str → State World → Failure × State World
  shutdown ignored s = gc ignored [] s

  unfoldable pub list : World → Result (List BackendService)
  list w = cloud.list_global_backend_services w
