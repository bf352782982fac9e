-- ===== src/Neg/Collect/Keeps.antt =====
-- What the garbage collection leaves, and what it deletes.
use ingress_gce.Base.{◌≡◌, refl, true, false, List, Str, subst, map, ok, arith}
use ingress_gce.Sets.{StringSets, elem}
use ingress_gce.Neg.Cloud.{NetworkEndpointGroup, NegCloud}
use ingress_gce.Neg.Sync.{finished}
use ingress_gce.Neg.Manager.{ServiceKey_Eq, NegNamer, Manager}
use ingress_gce.Neg.Collect.{delete_in_zones, unused_names, garbage_collect_neg}
use ingress_gce.Neg.Collect.Names.{in_use, some_zone_has, unused_names_lem}
use ingress_gce.Neg.Collect.Loops.{IsGone, DeletionLaws, delete_in_zones-IsGone}

module _ {World : Type 0} (C : NegCloud World) (L : DeletionLaws C) (S : StringSets) (N : NegNamer)
    (others : World → World) where
  collected :
      (m : Manager S) (w : World) (zones : List (Str × List NetworkEndpointGroup))
      → C.aggregated_list_network_endpoint_group w ≡ ok zones
      → garbage_collect_neg S N C others m w
        ≡ delete_in_zones C others (S.list (unused_names S N zones m)) zones w
  unfolding garbage_collect_neg
  collected m w zones e = rw (garbage_collect_neg, e) refl

  -- When it ends with no error, each listed group of the cluster that no service needs, by the manager's
  -- map when the names in use are taken, is not found any more in any zone that was listed, if the other
  -- goroutines do not make it again and lookups fail only for groups that are not there.
  pub garbage_collect_neg-IsGone :
      (m : Manager S) (w : World) (zones : List (Str × List NetworkEndpointGroup)) (name zone : Str)
      → C.aggregated_list_network_endpoint_group w ≡ ok zones
      → (garbage_collect_neg S N C others m w).0 ≡ finished
      → some_zone_has S N zones name ≡ true
      → in_use S N m.svc_port_map name ≡ false
      → elem (map (λ p. p.0) zones) zone ≡ true
      → ((v : World) → IsGone C name zone v → IsGone C name zone (others v))
      → IsGone C name zone (garbage_collect_neg S N C others m w).1
  garbage_collect_neg-IsGone m w zones name zone e h listed unused here stay =
      rw (collected m w zones e) (
        delete_in_zones-IsGone C others L (S.list (unused_names S N zones m)) zones name zone w stay
          (ground
            (arith, S.elem-list (unused_names S N zones m) name, unused_names_lem S N zones m name))
          here (subst (λ r. r.0 ≡ finished) (collected m w zones e) h))
