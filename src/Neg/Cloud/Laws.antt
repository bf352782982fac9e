-- ===== src/Neg/Cloud/Laws.antt =====
-- What the syncer relies on of the cloud: an attached endpoint is listed from then on, a detached one
-- is not, and no other endpoint, group or zone changes.
use ingress_gce.Base.{Bool, false, not, ◌&&◌, ◌||◌, List, [], ◌∷◌, Str, none, str_eq, ok, ◌≡◌}
use ingress_gce.Neg.Endpoint.{NetworkEndpoint}
use ingress_gce.Neg.Endpoint.Codec.{encode}
use ingress_gce.Neg.Cloud.{NegCloud}

-- Whether an endpoint with this encoding is in the list.
unfoldable pub holds : List NetworkEndpoint → Str → Bool
holds [] k = false
holds (e ∷ es) k = str_eq (encode e) k || holds es k

-- `content w name zone k`: the group of this name in this zone has an endpoint that is encoded as `k`.
pub record CloudLaws {World : Type 0} (C : NegCloud World) : Type 0 where
  pub content : World → Str → Str → Str → Bool
  pub listed :
      (w : World) (name zone : Str) (es : List NetworkEndpoint)
      → C.list_network_endpoints name zone w ≡ ok es
      → (k : Str) → holds es k ≡ content w name zone k
  pub attached :
      (w : World) (name zone : Str) (es : List NetworkEndpoint)
      → (C.attach_network_endpoints name zone es w).0 ≡ none
      → (z k : Str)
      → content (C.attach_network_endpoints name zone es w).1 name z k
        ≡ (str_eq zone z && holds es k || content w name z k)
  pub detached :
      (w : World) (name zone : Str) (es : List NetworkEndpoint)
      → (C.detach_network_endpoints name zone es w).0 ≡ none
      → (z k : Str)
      → content (C.detach_network_endpoints name zone es w).1 name z k
        ≡ (not (str_eq zone z && holds es k) && content w name z k)
