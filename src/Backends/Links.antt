-- ===== src/Backends/Links.antt =====
-- Link and Status of pkg/backends/backends.go.
use ingress_gce.Base.{
  not, Option, none, some, List, [], ◌∷◌, map, Str, codes, Result, ok, err, panic, if◌then◌else◌,
}
use ingress_gce.Sets.{StringSets, new_string}
use ingress_gce.Namer.{Namer, backend, neg}
use ingress_gce.Backends.{
  Backend, AlphaBackend, AlphaBackendService, ServicePort, backends_for_negs, Parts, Done,
}

abbrev pub unknown : Str
unknown = codes "Unknown"

-- the first state of the group's health
unfoldable pub first_health : Result (List (Option Str)) → Str
first_health (ok (some state ∷ states)) = state
first_health (ok (none ∷ states)) = unknown
first_health (ok []) = unknown
first_health (err e) = unknown
first_health panic = unknown

module _ {World : Type 0} (B : Parts World) where
  open B use {cloud}

  unfoldable pub status_of : Str → List Backend → World → Str
  status_of name [] w = unknown
  status_of name (b ∷ bs) w = first_health (cloud.get_global_backend_service_health name b.group w)

  unfoldable pub status : Str → World → Str
  status name w = elim (cloud.get_global_backend_service name w) [
    | ok be ↦ status_of name be.backends w
    | err e ↦ unknown
    | panic ↦ unknown
  ]

  -- the links of the zones' groups
  unfoldable pub zone_negs : Str → List Str → World → Result (List Str)
  zone_negs neg_name [] w = ok []
  zone_negs neg_name (zone ∷ zones) w = elim (B.get_network_endpoint_group neg_name zone w) [
    | ok link ↦ elim (zone_negs neg_name zones w) [
      | ok links ↦ ok (link ∷ links)
      | err e ↦ err e
      | panic ↦ panic
    ]
    | err e ↦ err e
    | panic ↦ panic
  ]

  module _ (S : StringSets) where
    open S use {equal}

    unfoldable pub link_service : List Str → AlphaBackendService → World → Done World
    link_service negs service w =
        let target = backends_for_negs negs in
        let old_groups = new_string S (map (λ b. AlphaBackend.group b) service.backends) in
        let new_groups = new_string S (map (λ b. AlphaBackend.group b) target) in
        if not (equal old_groups new_groups)
        then (let done =
              cloud.update_alpha_global_backend_service (record service { backends = target }) w in
            (some done.0, done.1))
        else (some none, w)

    module _ (md5_hex : Str → Str) (n : Namer) where
      -- from the group's name on, which is none only for a panic
      unfoldable pub link_named : ServicePort → List Str → Option Str → World → Done World
      link_named port zones none w = (none, w)
      link_named port zones (some neg_name) w = elim (zone_negs neg_name zones w) [
        | ok negs ↦ elim (cloud.get_alpha_global_backend_service (backend n port.port) w) [
          | ok service ↦ link_service negs service w
          | err e ↦ (some (some e), w)
          | panic ↦ (none, w)
        ]
        | err e ↦ (some (some e), w)
        | panic ↦ (none, w)
      ]

      unfoldable pub link : ServicePort → List Str → World → Done World
      link port zones w =
          if not port.neg_enabled
          then (some none, w)
          else link_named port zones
              (neg md5_hex n port.svc_namespace port.svc_name port.svc_target_port) w
