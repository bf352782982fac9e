-- ===== src/Backends/Settings.antt =====
-- The settings of the health check that the pool of backends asks for.
use ingress_gce.Base.{
  ◌≡◌, ◌+◌, ◌++◌, true, false, Option, some, [], Str, codes, has_prefix, Result, ok,
}
use ingress_gce.Namer.{Namer}
use ingress_gce.HealthCheck.{HealthCheck, LegacyHealthCheck, Json}
use ingress_gce.HealthChecks.{HealthCheckProvider, Linked, new, sync, get_legacy}
use ingress_gce.Backends.{ServicePort, Probe, Parts}

-- What is asked of the pool of health checks has the settings of the legacy check.
pub record HasLegacy (old : LegacyHealthCheck) (hc : HealthCheck) : Type 0 where
  pub legacy_path : hc.http.request_path ≡ old.request_path
  pub legacy_host : hc.http.host ≡ old.host
  pub legacy_interval : hc.check.check_interval_sec ≡ old.check_interval_sec
  pub legacy_timeout : hc.check.timeout_sec ≡ old.timeout_sec
  pub legacy_healthy : hc.check.healthy_threshold ≡ old.healthy_threshold
  pub legacy_unhealthy : hc.check.unhealthy_threshold ≡ old.unhealthy_threshold
  pub legacy_description : hc.check.description ≡ old.description

-- It has the probe's settings: its path from the root, its timeout, and its period, which is longer
-- for an instance group.
pub record HasProbe (p : ServicePort) (probe : Probe) (hc : HealthCheck) : Type 0 where
  pub rooted : has_prefix (codes "/") probe.path ≡ true → hc.http.request_path ≡ probe.path
  pub unrooted :
      has_prefix (codes "/") probe.path ≡ false → hc.http.request_path ≡ codes "/" ++ probe.path
  pub probe_host : probe.http_headers ≡ [] → hc.http.host ≡ probe.host
  pub probe_timeout : hc.check.timeout_sec ≡ probe.timeout_seconds
  pub neg_period : p.neg_enabled ≡ true → hc.check.check_interval_sec ≡ probe.period_seconds
  pub group_period : p.neg_enabled ≡ false → hc.check.check_interval_sec ≡ probe.period_seconds + 60

module _ {World : Type 0} (J : Json) (C : HealthCheckProvider World) (n : Namer)
    (default_path : Str) (B : Parts World) where
  -- the settings by what there is
  pub data Settings (p : ServicePort) (w : World) (hc : HealthCheck) : Type 0 where
    of_legacy :
        (old : LegacyHealthCheck)
        → get_legacy C n p.port w ≡ ok old
        → HasLegacy old hc
        → Settings p w hc
    of_probe :
        (get_probe : ServicePort → World → Result (Option Probe)) (probe : Probe)
        → B.prober ≡ some get_probe
        → get_probe p w ≡ ok (some probe)
        → HasProbe p probe hc
        → Settings p w hc
    of_default :
        ((old : LegacyHealthCheck) → ¬ (get_legacy C n p.port w ≡ ok old))
        → ((get_probe : ServicePort → World → Result (Option Probe)) (probe : Probe)
            → B.prober ≡ some get_probe
            → ¬ (get_probe p w ≡ ok (some probe)))
        → hc ≡ new n p.port p.protocol p.neg_enabled
        → Settings p w hc

  -- a sync of a check with the settings
  pub Asked : ServicePort → World → Linked World → Type 0
  Asked p w r = (hc : HealthCheck) × (r ≡ sync J C n default_path hc w) × Settings p w hc
