-- ===== src/Backends/Ensured.antt =====
-- What Ensure leaves of one service port in the cloud.
use ingress_gce.Base.{◌≡◌, Option, List, Str, ok}
use ingress_gce.Base.Maps.{str_Eq}
use ingress_gce.Namer.{Namer, backend}
use ingress_gce.Backends.{BackendService, ServicePort, Parts}
use ingress_gce.Backends.Hop.{ServiceLaws}
use ingress_gce.Backends.Linking.{Suits, Reaches, LegacyLaws}

module _ {World : Type 0} (B : Parts World) (L : ServiceLaws B.cloud) (K : LegacyLaws B) where
  open B use {cloud}

  module _ (n : Namer) where
    -- In the cloud, the port's service has the port's settings and its groups.
    pub record Served (p : ServicePort) (igs : List Str) (hc_link : Str) (w : World) : Type 0 where
      pub service : BackendService
      pub stored : cloud.get_global_backend_service (backend n p.port) w ≡ ok service
      pub suits : Suits p hc_link service
      pub reaches : Reaches p igs service
