-- ===== src/Backends/Tracked.antt =====
-- The ports that the snapshot keeps: each one that was tried, by its key.
use ingress_gce.Base.{
  ℕ, ◌≡◌, ◌<◌, ◌^◌, refl, ◌∙◌, Option, none, some, List, [], ◌∷◌, Str, str_eq, Result, ok, err,
  panic, Failure, All, Bool-cases, Option-cases, inl, inr, if_true,
}
use ingress_gce.Base.Outcome.{Result-cases}
use ingress_gce.Base.Maps.{get as map_get, put, get-put, beq_refl, str_Eq}
use ingress_gce.Namer.{Namer, backend}
use ingress_gce.Pools.{InMemoryPool}
use ingress_gce.Backends.{
  BackendService, empty_service, ServicePort, port_key, parse_port, Parts, State,
}
use ingress_gce.Backends.Sweep.{parse_port-port_key}
use ingress_gce.Backends.Services.{
  get_added, get, create, new_service, track, checked, created, ensure_service, ensure_linked,
  ensure_health_check, ensure_backend_service,
}

-- The key is read by GC as a port of 16 bits, whose key it is.
abbrev pub IsPortKey : Str → Type 0
IsPortKey k = (p : ℕ) × (p < 2 ^ 16) × (parse_port k ≡ ok p) × (k ≡ port_key p)

pub port_key-IsPortKey : (p : ℕ) → p < 2 ^ 16 → IsPortKey (port_key p)
port_key-IsPortKey p small = (p, small, parse_port-port_key p small, refl)

-- every key of the snapshot is
abbrev pub IsTracked : InMemoryPool (Option BackendService) → Type 0
IsTracked pool = All (λ e. IsPortKey e.0) pool

pub put-IsTracked :
    (k : Str) (v : Option BackendService) (pool : InMemoryPool (Option BackendService))
    → IsPortKey k
    → IsTracked pool
    → IsTracked (put k v pool)
unfolding put
put-IsTracked k v [] p t = (p, tt)
put-IsTracked k v ((j, w) ∷ pool) p t = elim (Bool-cases (str_eq j k)) [
  | inl b ↦ rw (put, b) t
  | inr b ↦ rw (put, b) (t.0, put-IsTracked k v pool p t.1)
]

module _ {World : Type 0} (B : Parts World) (n : Namer) where
  -- The snapshot has the port.
  pub HasPort : ServicePort → State World → Type 0
  HasPort p s = (v : Option BackendService) × (map_get (port_key p.port) s.0 ≡ some v)

  track-HasPort :
      (p : ServicePort) (be : Option BackendService) (s : State World)
      → HasPort p (track B n p be s)
  unfolding track HasPort
  track-HasPort p be s = (
    be,
    get-put (port_key p.port) (port_key p.port) be s.0 ∙ if_true _ _ (beq_refl (port_key p.port)),
  )

  checked-HasPort :
      (p : ServicePort) (igs : List Str) (hc_link : Str) (be : BackendService) (s : State World)
      → HasPort p (checked B n p igs hc_link be s).1
  unfolding checked
  checked-HasPort p igs hc_link be s = track-HasPort p (some _) (s.0, _)

  created-HasPort :
      (p : ServicePort) (igs : List Str) (hc_link : Str) (r : Result BackendService × State World)
      (f : Failure)
      → (created B n p igs hc_link r).0 ≡ some f
      → HasPort p (created B n p igs hc_link r).1
  unfolding created
  created-HasPort p igs hc_link (ok be, s) f h = checked-HasPort p igs hc_link be s
  created-HasPort p igs hc_link (err e, s) f h = track-HasPort p none s
  created-HasPort p igs hc_link (panic, s) f h = absurd (cc h)

  ensure_service-HasPort :
      (p : ServicePort) (igs : List Str) (hc_link : Str) (r : Result BackendService × State World)
      (f : Failure)
      → (ensure_service B n p igs hc_link r).0 ≡ some f
      → HasPort p (ensure_service B n p igs hc_link r).1
  unfolding ensure_service
  ensure_service-HasPort p igs hc_link (ok be, s) f h = checked-HasPort p igs hc_link be s
  ensure_service-HasPort p igs hc_link (err e, s) f h =
      created-HasPort p igs hc_link (create B n hc_link p s) f h
  ensure_service-HasPort p igs hc_link (panic, s) f h = absurd (cc h)

  ensure_linked-HasPort :
      (p : ServicePort) (igs : List Str) (answer : Option (Str × Failure)) (s : State World)
      (f : Failure)
      → (ensure_linked B n p igs answer s).0 ≡ some f
      → HasPort p (ensure_linked B n p igs answer s).1
  unfolding ensure_linked
  ensure_linked-HasPort p igs none s f h = absurd (cc h)
  ensure_linked-HasPort p igs (some (link, some e)) s f h = track-HasPort p (some empty_service) s
  ensure_linked-HasPort p igs (some (link, none)) s f h =
      ensure_service-HasPort p igs link (get B n p.port s) f h

  -- Whatever its outcome, short of a panic, ensuring a service port leaves the port in the snapshot, so
  -- that the health check and the service that it may have created are collected later.
  pub ensure_backend_service-HasPort :
      (p : ServicePort) (igs : List Str) (s : State World) (f : Failure)
      → (ensure_backend_service B n p igs s).0 ≡ some f
      → HasPort p (ensure_backend_service B n p igs s).1
  unfolding ensure_backend_service
  ensure_backend_service-HasPort p igs s f h =
      let health = ensure_health_check B p s.1 in
      ensure_linked-HasPort p igs health.0 (s.0, health.1) f h

  module _ (p : ServicePort) (small : p.port < 2 ^ 16) where
    put_port :
        (v : Option BackendService) (pool : InMemoryPool (Option BackendService))
        → IsTracked pool
        → IsTracked (put (port_key p.port) v pool)
    put_port v pool t = put-IsTracked (port_key p.port) v pool (port_key-IsPortKey p.port small) t

    checked-IsTracked :
        (igs : List Str) (hc_link : Str) (be : BackendService) (s : State World)
        → IsTracked s.0
        → IsTracked (checked B n p igs hc_link be s).1.0
    unfolding checked track
    checked-IsTracked igs hc_link be s t = put_port (some _) s.0 t

    get-IsTracked : (s : State World) → IsTracked s.0 → IsTracked (get B n p.port s).1.0
    unfolding get get_added
    get-IsTracked s t =
        elim (Result-cases (B.cloud.get_global_backend_service (backend n p.port) s.1)) [
          | inl (be, e) ↦ rw (get, e) (put_port (some be) s.0 t)
          | inr (inl (x, e)) ↦ rw (get, e) t
          | inr (inr e) ↦ rw (get, e) t
        ]

    create-IsTracked :
        (hc_link : Str) (s : State World) → IsTracked s.0 → IsTracked (create B n hc_link p s).1.0
    unfolding create
    create-IsTracked hc_link s t =
        elim (Option-cases
          (B.cloud.create_global_backend_service (new_service n hc_link p) s.1).0) [
            | inl e ↦ rw (create, e) (get-IsTracked (s.0, _) t)
            | inr (x, e) ↦ rw (create, e) t
          ]

    created-IsTracked :
        (igs : List Str) (hc_link : Str) (r : Result BackendService × State World)
        → IsTracked r.1.0
        → IsTracked (created B n p igs hc_link r).1.0
    unfolding created track
    created-IsTracked igs hc_link (ok be, s) t = checked-IsTracked igs hc_link be s t
    created-IsTracked igs hc_link (err e, s) t = put_port none s.0 t
    created-IsTracked igs hc_link (panic, s) t = t

    ensure_service-IsTracked :
        (igs : List Str) (hc_link : Str) (r : Result BackendService × State World)
        → IsTracked r.1.0
        → IsTracked (ensure_service B n p igs hc_link r).1.0
    unfolding ensure_service
    ensure_service-IsTracked igs hc_link (ok be, s) t = checked-IsTracked igs hc_link be s t
    ensure_service-IsTracked igs hc_link (err e, s) t =
        created-IsTracked igs hc_link (create B n hc_link p s) (create-IsTracked hc_link s t)
    ensure_service-IsTracked igs hc_link (panic, s) t = t

    ensure_linked-IsTracked :
        (igs : List Str) (answer : Option (Str × Failure)) (s : State World)
        → IsTracked s.0
        → IsTracked (ensure_linked B n p igs answer s).1.0
    unfolding ensure_linked track
    ensure_linked-IsTracked igs none s t = t
    ensure_linked-IsTracked igs (some (link, some e)) s t = put_port (some empty_service) s.0 t
    ensure_linked-IsTracked igs (some (link, none)) s t =
        ensure_service-IsTracked igs link (get B n p.port s) (get-IsTracked s t)

    -- Whatever its outcome, ensuring a service port of 16 bits keeps every key of the snapshot one that
    -- GC parses as a port of 16 bits, and that is the key of this port.
    pub ensure_backend_service-IsTracked :
        (igs : List Str) (s : State World)
        → IsTracked s.0
        → IsTracked (ensure_backend_service B n p igs s).1.0
    unfolding ensure_backend_service
    ensure_backend_service-IsTracked igs s t =
        let health = ensure_health_check B p s.1 in
        ensure_linked-IsTracked igs health.0 (s.0, health.1) t
