-- ===== src/Backends/Hop.antt =====
-- What an edge hop leaves in a backend service.
use ingress_gce.Base.{
  ◌≡◌, refl, ap, subst, ◌∙◌, Bool, true, ◌&&◌, ◌||◌, not, none, some, List, [], ◌∷◌, ◌++◌, map, Str,
  codes, str_eq, str_eq_iff, contains, Error, ok, arith, Bool-cases, Option-cases, inl, inr,
}
use ingress_gce.Sets.{elem}
use ingress_gce.Http.{is_http_error_code}
use ingress_gce.Backends.{
  rate, utilization, Backend, BackendService, ServiceOf, backends_for_igs, BackendServices, Parts,
}
use ingress_gce.Backends.Services.{is_superset, ig_backends, new_igs, Changed, try_modes, edge_hop}

abbrev pub groups : List Backend → List Str
groups bs = map (λ b. Backend.group b) bs

abbrev pub is_ig : Str → Bool
is_ig link = contains (codes "instanceGroups") link

groups-append :
    (bs cs : List Backend) (k : Str)
    → elem (groups (bs ++ cs)) k ≡ (elem (groups bs) k || elem (groups cs) k)
unfolding elem
groups-append [] cs k = refl
groups-append (b ∷ bs) cs k = ground (arith, groups-append bs cs k)

groups-backends_for_igs :
    (igs : List Str) (bm k : Str) → elem (groups (backends_for_igs igs bm)) k ≡ elem igs k
unfolding elem backends_for_igs
groups-backends_for_igs [] bm k = refl
groups-backends_for_igs (ig ∷ igs) bm k =
    ap (λ r. str_eq ig k || r) (groups-backends_for_igs igs bm k)

elem-new_igs :
    (links igs : List Str) (k : Str)
    → elem (new_igs links igs) k ≡ (elem igs k && not (elem links k))
unfolding elem new_igs
elem-new_igs links [] k = refl
elem-new_igs links (ig ∷ igs) k = elim (Bool-cases (str_eq ig k)) [
  | inl e ↦ ground (arith, elem-new_igs links igs k, ap (elem links) ((str_eq_iff ig k).0 e))
  | inr e ↦ ground (arith, elem-new_igs links igs k)
]

groups-ig_backends :
    (bs : List Backend) (k : Str)
    → elem (groups (ig_backends bs)) k ≡ (elem (groups bs) k && is_ig k)
unfolding elem ig_backends
groups-ig_backends [] k = refl
groups-ig_backends (b ∷ bs) k = elim (Bool-cases (str_eq b.group k)) [
  | inl e ↦ ground (arith, groups-ig_backends bs k, ap is_ig ((str_eq_iff b.group k).0 e))
  | inr e ↦ ground (arith, groups-ig_backends bs k)
]

is_superset-elem :
    (links igs : List Str) (k : Str)
    → is_superset links igs ≡ true
    → elem igs k ≡ true
    → elem links k ≡ true
unfolding elem is_superset
is_superset-elem links [] k h e = absurd (cc e)
is_superset-elem links (ig ∷ igs) k h e = elim (Bool-cases (str_eq ig k)) [
  | inl s ↦ subst (λ x. elem links x ≡ true) ((str_eq_iff ig k).0 s) (ground (arith, h))
  | inr s ↦ is_superset-elem links igs k (ground (arith, h)) (ground (arith, e, s))
]

-- A service that was updated or created with no error is found as it was given, and a service that is
-- found has the name that it was looked up by.
pub record ServiceLaws {World : Type 0} (C : BackendServices World) : Type 0 where
  pub updated :
      (w : World) (be : BackendService)
      → (C.update_global_backend_service be w).0 ≡ none
      → C.get_global_backend_service be.name (C.update_global_backend_service be w).1 ≡ ok be
  pub named :
      (w : World) (name : Str) (be : BackendService)
      → C.get_global_backend_service name w ≡ ok be
      → be.name ≡ name

module _ {World : Type 0} (B : Parts World) (L : ServiceLaws B.cloud) where
  open B use {cloud}

  -- The way of a hop without an error: the service is stored as it is returned, with the same name,
  -- protocol, description and health checks, and its groups are those that are given.
  pub record Hopped (be : BackendService) (links : List Backend) (r : Changed World) : Type 0 where
    pub stored : cloud.get_global_backend_service be.name r.2 ≡ ok r.1
    pub changed : r.1 ≡ record be { backends = links }

  try_modes-Hopped :
      (bms : List Str) (original : List Backend) (add_igs : List Str) (errs : List Error)
      (be : BackendService) (w : World)
      → (try_modes B bms original add_igs errs be w).0 ≡ none
      → (bm : Str) × Hopped be
          (original ++ backends_for_igs add_igs bm)
          (try_modes B bms original add_igs errs be w)
  unfolding try_modes
  try_modes-Hopped [] original add_igs errs be w h = absurd (cc h)
  try_modes-Hopped (bm ∷ bms) original add_igs errs be w h =
      let be' = record be { backends = original ++ backends_for_igs add_igs bm } in
      let done = cloud.update_global_backend_service be' w in
      elim (Option-cases done.0) [
        | inl e ↦ (bm, rw (try_modes, e) (record { stored = L.updated w be' e; changed = refl }))
        | inr (x, e) ↦ elim (Bool-cases (is_http_error_code (some x) 400)) [
          | inl b ↦
              let ih =
                try_modes-Hopped bms original add_igs (errs ++ x ∷ []) be' done.1
                  (rw (try_modes, e, b) at h) in
              (ih.0, rw (try_modes, e, b) (record { stored = ih.1.stored; changed = ih.1.changed }))
          | inr b ↦ absurd (cc (rw (try_modes, e, b) at h))
        ]
      ]

  superset_lem :
      (be : BackendService) (igs : List Str) (k : Str)
      → is_superset (groups be.backends) igs ≡ true
      → elem (groups be.backends) k ≡ (elem igs k || elem (groups be.backends) k)
  superset_lem be igs k s = elim (Bool-cases (elem igs k)) [
    | inl e ↦ rw (e, is_superset-elem (groups be.backends) igs k s e) refl
    | inr e ↦ rw e refl
  ]

  hop_lem :
      (be : BackendService) (igs : List Str) (bm k : Str)
      → is_ig k ≡ true
      → elem
          (groups
            (ig_backends be.backends ++ backends_for_igs (new_igs (groups be.backends) igs) bm))
          k
        ≡ (elem igs k || elem (groups be.backends) k)
  hop_lem be igs bm k ig = ground (
    arith,
    groups-append (ig_backends be.backends) (backends_for_igs (new_igs (groups be.backends) igs) bm)
        k,
    groups-ig_backends be.backends k,
    groups-backends_for_igs (new_igs (groups be.backends) igs) bm k,
    elem-new_igs (groups be.backends) igs k,
    ig,
  )

  -- the two ways of a hop, for one link of an instance group
  pub edge_hop-Hopped :
      (be : BackendService) (igs : List Str) (w : World)
      → cloud.get_global_backend_service be.name w ≡ ok be
      → (edge_hop B be igs w).0 ≡ none
      → (links : List Backend) × Hopped be links (edge_hop B be igs w)
        × ((k : Str)
            → is_ig k ≡ true
            → elem (groups links) k ≡ (elem igs k || elem (groups be.backends) k))
  unfolding edge_hop
  edge_hop-Hopped be igs w found h = elim (Bool-cases (is_superset (groups be.backends) igs)) [
    | inl s ↦ (
      be.backends,
      rw (edge_hop, s) (record { stored = found; changed = refl }),
      λ k ig. superset_lem be igs k s,
    )
    | inr s ↦
        let modes = rate ∷ utilization ∷ [] in
        let run =
          try_modes-Hopped modes (ig_backends be.backends) (new_igs (groups be.backends) igs) [] be
            w (rw (edge_hop, s) at h) in
        (_, rw (edge_hop, s) run.1, λ k ig. hop_lem be igs run.0 k ig)
  ]

  -- The service under the name has the group or has it not.
  pub HasGroup : Str → Str → Bool → World → Type 0
  HasGroup name k b w =
      (be : BackendService) × (cloud.get_global_backend_service name w ≡ ok be)
      × (elem (groups be.backends) k ≡ b)

  -- An edge hop that reports no error on a service as it is in the cloud, in whichever balancing mode it
  -- was accepted: afterwards an instance group's link is among the service's groups in the cloud exactly
  -- if it was among them before or is one of the given ones.
  pub edge_hop-HasGroup :
      (be : BackendService) (igs : List Str) (w : World)
      → cloud.get_global_backend_service be.name w ≡ ok be
      → (edge_hop B be igs w).0 ≡ none
      → (k : Str) → is_ig k ≡ true
      → HasGroup be.name k (elem igs k || elem (groups be.backends) k) (edge_hop B be igs w).2
  unfolding HasGroup
  edge_hop-HasGroup be igs w found h k ig =
      let (links, hop, exact) = edge_hop-Hopped be igs w found h in
      (
        (edge_hop B be igs w).1,
        hop.stored,
        ap (λ s. elem (groups (ServiceOf.backends s)) k) hop.changed ∙ exact k ig,
      )
