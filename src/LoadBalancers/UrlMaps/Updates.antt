-- ===== src/LoadBalancers/UrlMaps/Updates.antt =====
-- What an update of a url map leaves in the cloud.
use ingress_gce.Base.{◌≡◌, Option, none, Str, ok}
use ingress_gce.Base.Maps.{str_Eq}
use ingress_gce.LoadBalancers.{UrlMap, LoadBalancers}
use ingress_gce.LoadBalancers.UrlMaps.Same.{SameRules}
use ingress_gce.LoadBalancers.UrlMaps.{update_url_map}

-- A url map that was updated with no error is found with the rules that it was given, and a lookup does
-- not panic.
pub record UrlMapLaws {World : Type 0} (C : LoadBalancers World) : Type 0 where
  pub updated :
      (w : World) (um : UrlMap)
      → (C.update_url_map um w).0 ≡ none
      → (x : UrlMap) × (C.get_url_map um.name (C.update_url_map um w).1 ≡ ok x) × SameRules x um

module _ (md5_hex : Str → Str) {World : Type 0} (C : LoadBalancers World) (L : UrlMapLaws C) where
  -- the map under the name has the rules
  Stored : UrlMap → World → Type 0
  Stored um w = (x : UrlMap) × (C.get_url_map um.name w ≡ ok x) × SameRules x um
