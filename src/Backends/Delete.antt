-- ===== src/Backends/Delete.antt =====
-- What Delete does to the cloud and to the snapshot.
use ingress_gce.Base.{
  ℕ, ◌≡◌, ◌⊎◌, refl, ap, sym, subst, ◌∙◌, Bool, true, false, Option, none, some, Str, str_eq, Error,
  err, Failure, arith, Bool-cases, Option-cases, inl, inr,
}
use ingress_gce.Base.Maps.{remove, str_Eq}
use ingress_gce.Http.{status_not_found, is_http_error_code}
use ingress_gce.Namer.{Namer, backend}
use ingress_gce.Pools.{InMemoryPool}
use ingress_gce.Backends.{BackendService, port_key, Parts, State}
use ingress_gce.Backends.Collect.{forget, delete}

abbrev pub is_missing : Error → Bool
is_missing e = is_http_error_code (some e) status_not_found

-- The service is looked up and not found.
abbrev pub IsGone : {World : Type 0} → Parts World → Str → World → Type 0
IsGone B name w =
    (e : Error) × (B.cloud.get_global_backend_service name w ≡ err e) × (is_missing e ≡ true)

-- What the pool relies on of the deletions: a service whose deletion has no error or finds none is gone,
-- and no other service changes; the health checks are other objects.
pub record DeleteLaws {World : Type 0} (B : Parts World) : Type 0 where
  pub deleted :
      (w : World) (name : Str)
      → (B.cloud.delete_global_backend_service name w).0 ≡ none
      → IsGone B name (B.cloud.delete_global_backend_service name w).1
  pub missing :
      (w : World) (name : Str) (e : Error)
      → (B.cloud.delete_global_backend_service name w).0 ≡ some e
      → is_missing e ≡ true
      → IsGone B name (B.cloud.delete_global_backend_service name w).1
  pub elsewhere :
      (w : World) (name other : Str)
      → str_eq name other ≡ false
      → B.cloud.get_global_backend_service other (B.cloud.delete_global_backend_service name w).1
        ≡ B.cloud.get_global_backend_service other w
  pub health_kept :
      (w : World) (port : ℕ) (name : Str)
      → B.cloud.get_global_backend_service name (B.health_checker.delete port w).1
        ≡ B.cloud.get_global_backend_service name w

-- the two ends of a deletion
pub data Deletion {World : Type 0} (port : ℕ) (pool : InMemoryPool (Option BackendService))
    (r : Failure × State World) : Type 0 where
  done : r.0 ≡ none → r.1.0 ≡ remove (port_key port) pool → Deletion port pool r
  kept : (e : Error) → r.0 ≡ some e → is_missing e ≡ false → r.1.0 ≡ pool → Deletion port pool r

module _ {World : Type 0} (B : Parts World) (n : Namer) where
  open B use {cloud, health_checker}

  forget-Deletion :
      (port : ℕ) (f : Failure) (s : State World) → Deletion port s.0 (forget B n port f s)
  unfolding forget
  forget-Deletion port none s = done refl refl
  forget-Deletion port (some e) s = elim (Bool-cases (is_missing e)) [
    | inl b ↦ rw (forget, b) (done refl refl)
    | inr b ↦ rw (forget, b) (kept e refl b refl)
  ]

  forget_kept :
      (port : ℕ) (e : Error) (s : State World)
      → is_missing e ≡ false
      → (forget B n port (some e) s).0 ≡ some e
  unfolding forget
  forget_kept port e s b = rw b refl

  forget-world : (port : ℕ) (f : Failure) (s : State World) → (forget B n port f s).1.1 ≡ s.1
  unfolding forget
  forget-world port none s = refl
  forget-world port (some e) s = ground arith

  -- The three ways of a deletion: the service's error ends it, or the health check is deleted too.
  data Way (port : ℕ) (s : State World) : Type 0 where
    failed :
        (e : Error)
        → (cloud.delete_global_backend_service (backend n port) s.1).0 ≡ some e
        → is_missing e ≡ false
        → delete B n port s
          ≡ forget B n port
              (some e)
              (s.0, (cloud.delete_global_backend_service (backend n port) s.1).1)
        → Way port s
    went_on :
        ((cloud.delete_global_backend_service (backend n port) s.1).0 ≡ none)
          ⊎ ((e : Error) × ((cloud.delete_global_backend_service (backend n port) s.1).0 ≡ some e)
              × (is_missing e ≡ true))
        → delete B n port s
          ≡ forget B n port
              (health_checker.delete port
                (cloud.delete_global_backend_service (backend n port) s.1).1).0
              (
                s.0,
                (health_checker.delete port
                    (cloud.delete_global_backend_service (backend n port) s.1).1).1,
              )
        → Way port s

  delete-Way : (port : ℕ) (s : State World) → Way port s
  unfolding delete
  delete-Way port s =
      elim (Option-cases (cloud.delete_global_backend_service (backend n port) s.1).0) [
        | inl e ↦ went_on (inl e) (rw (delete, e) refl)
        | inr (x, e) ↦ elim (Bool-cases (is_missing x)) [
          | inl b ↦ went_on (inr (x, e, b)) (rw (delete, e, b) refl)
          | inr b ↦ failed x e b (rw (delete, e, b) refl)
        ]
      ]

  -- A deletion ends in one of two ways: with no error, and the port is no longer in the snapshot; or
  -- with an error that is not a 404, and the snapshot is as it was, so that the port is collected again.
  pub delete-Deletion : (port : ℕ) (s : State World) → Deletion port s.0 (delete B n port s)
  delete-Deletion port s = elim (delete-Way port s) [
    | failed e hit b run ↦
        subst (λ r. Deletion port s.0 r) (sym run) (forget-Deletion port (some e) (s.0, _))
    | went_on why run ↦ subst (λ r. Deletion port s.0 r) (sym run) (forget-Deletion port _ (s.0, _))
  ]

  module _ (L : DeleteLaws B) where
    -- Whatever its outcome, a deletion changes no service of another name.
    pub delete-elsewhere :
        (port : ℕ) (s : State World) (other : Str)
        → str_eq (backend n port) other ≡ false
        → cloud.get_global_backend_service other (delete B n port s).1.1
          ≡ cloud.get_global_backend_service other s.1
    delete-elsewhere port s other ne = elim (delete-Way port s) [
      | failed e hit b run ↦
          ap (λ r. cloud.get_global_backend_service other r.1.1) run
          ∙ (ap (λ w. cloud.get_global_backend_service other w) (forget-world port _ _)
              ∙ L.elsewhere s.1 (backend n port) other ne)
      | went_on why run ↦
          ap (λ r. cloud.get_global_backend_service other r.1.1) run
          ∙ (ap (λ w. cloud.get_global_backend_service other w) (forget-world port _ _)
              ∙ (L.health_kept _ port other ∙ L.elsewhere s.1 (backend n port) other ne))
    ]

    IsGone-same :
        (name : Str) {v w : World}
        → cloud.get_global_backend_service name v ≡ cloud.get_global_backend_service name w
        → IsGone B name w
        → IsGone B name v
    IsGone-same name e g = (g.0, e ∙ g.1, g.2)

    -- A deletion that reports no error leaves no backend service of the port.
    pub delete-IsGone :
        (port : ℕ) (s : State World)
        → (delete B n port s).0 ≡ none
        → IsGone B (backend n port) (delete B n port s).1.1
    delete-IsGone port s h = elim (delete-Way port s) [
      | failed e hit b run ↦ absurd (cc (forget_kept port e (s.0, _) b, ap (λ r. r.0) run, h))
      | went_on why run ↦
          IsGone-same (backend n port)
            (ap (λ r. cloud.get_global_backend_service (backend n port) r.1.1) run
              ∙ (ap (λ w. cloud.get_global_backend_service (backend n port) w)
                    (forget-world port _ _)
                  ∙ L.health_kept _ port (backend n port)))
            (elim why [
              | inl e ↦ L.deleted s.1 (backend n port) e
              | inr (x, e, b) ↦ L.missing s.1 (backend n port) x e b
            ])
    ]
