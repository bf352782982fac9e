-- ===== src/Neg/Tests/Cloud.antt =====
-- A cloud and a cluster of two zones for the tests, on which everything that the theorems ask of a
-- cloud is shown to hold.
use ingress_gce.Base.{
  ◌≡◌, ◌≢◌, refl, ap, sym, Bool, true, false, not, ◌&&◌, ◌||◌, Option, none, some, List, [], ◌∷◌,
  ◌++◌, Str, codes, str_eq, str_eq_iff, str_eq_refl, subst, Option-cases, Result, ok, err, panic,
  plain, Failure, if◌then◌else◌, Bool-cases, inl, inr, arith,
}
use ingress_gce.Base.Outcome.{ok-injective}
use ingress_gce.Neg.Endpoint.{NetworkEndpoint}
use ingress_gce.Neg.Endpoint.Codec.{encode}
use ingress_gce.Neg.Cloud.{NetworkEndpointGroup, ZoneGetter, NegCloud}
use ingress_gce.Neg.Cloud.Laws.{CloudLaws, holds}
use ingress_gce.Neg.Syncer.Groups.{GroupLaws}

-- by name and zone
pub record World : Type 0 where
  pub groups : Str → Str → Option NetworkEndpointGroup
  pub endpoints : Str → Str → List NetworkEndpoint

abbrev here : Str → Str → Str → Str → Bool
here name zone n z = str_eq name n && str_eq zone z

abbrev pub found : Option NetworkEndpointGroup → Result NetworkEndpointGroup
found none = err (plain (codes "Not Found"))
found (some g) = ok g

abbrev write {ℓ} : {A : Type ℓ} → Str → Str → A → (Str → Str → A) → Str → Str → A
write name zone a f n z = if here name zone n z then a else f n z

abbrev create_group : NetworkEndpointGroup → Str → World → Failure × World
create_group g zone w = elim (w.groups g.name zone) [
  | none ↦ (none, record w { groups = write g.name zone (some g) w.groups })
  | some old ↦ (some (plain (codes "Already exists")), w)
]

abbrev delete_group : Str → Str → World → Failure × World
delete_group name zone w = (
  none,
  record w { groups = write name zone none w.groups; endpoints = write name zone [] w.endpoints },
)

unfoldable pub drop_held : List NetworkEndpoint → List NetworkEndpoint → List NetworkEndpoint
drop_held es [] = []
drop_held es (x ∷ xs) = let rest = drop_held es xs in if holds es (encode x) then rest else x ∷ rest

abbrev pub cloud : NegCloud World
cloud = record {
  get_network_endpoint_group = λ name zone w. found (w.groups name zone);
  aggregated_list_network_endpoint_group = λ w. ok [];
  create_network_endpoint_group = create_group;
  delete_network_endpoint_group = delete_group;
  attach_network_endpoints = λ name zone es w.
      (none, record w { endpoints = write name zone (es ++ w.endpoints name zone) w.endpoints });
  detach_network_endpoints = λ name zone es w. (
    none,
    record w { endpoints = write name zone (drop_held es (w.endpoints name zone)) w.endpoints },
  );
  list_network_endpoints = λ name zone w. ok (w.endpoints name zone);
  network_url = codes "projects/p/global/networks/default";
  subnetwork_url = codes "projects/p/regions/r/subnetworks/default";
}

pub holds-append :
    (es fs : List NetworkEndpoint) (k : Str) → holds (es ++ fs) k ≡ (holds es k || holds fs k)
unfolding holds
holds-append [] fs k = refl
holds-append (e ∷ es) fs k = ground (arith, holds-append es fs k)

pub holds-drop_held :
    (es xs : List NetworkEndpoint) (k : Str)
    → holds (drop_held es xs) k ≡ (not (holds es k) && holds xs k)
unfolding holds drop_held
holds-drop_held es [] k = ground arith
holds-drop_held es (x ∷ xs) k = elim (Bool-cases (str_eq (encode x) k)) [
  | inl e ↦ ground (arith, holds-drop_held es xs k, ap (holds es) ((str_eq_iff (encode x) k).0 e))
  | inr e ↦ ground (arith, holds-drop_held es xs k)
]

write-here {ℓ} :
    {A : Type ℓ} (name zone : Str) (a : A) (f : Str → Str → A) → write name zone a f name zone ≡ a
write-here name zone a f = rw (str_eq_refl name, str_eq_refl zone) refl

write-elsewhere {ℓ} :
    {A : Type ℓ} (name zone n z : Str) (a : A) (f : Str → Str → A)
    → str_eq zone z ≡ false
    → write name zone a f n z ≡ f n z
write-elsewhere name zone n z a f e = elim (Bool-cases (str_eq name n)) [
  | inl h ↦ rw (h, e) refl
  | inr h ↦ rw h refl
]

-- in either zone
pub both_zones {ℓ} :
    {A : Type ℓ} (name zone z : Str) (a : A) (f : Str → Str → A) (P : A → Str → Bool → Type 0)
    → P a zone true
    → (str_eq zone z ≡ false → P (f name z) z false)
    → P (write name zone a f name z) z (str_eq zone z)
both_zones name zone z a f P h k = elim (Bool-cases (str_eq zone z)) [
  | inl e ↦
      let same = (str_eq_iff zone z).0 e in
      subst (λ y. P (write name zone a f name y) y (str_eq zone y)) same
        (rw (write-here name zone a f, str_eq_refl zone) h)
  | inr e ↦ rw (write-elsewhere name zone name z a f e, e) (k e)
]

unfoldable pub cloud-CloudLaws : CloudLaws cloud
cloud-CloudLaws = record {
  content = λ w name z k. holds (w.endpoints name z) k;
  listed =
      λ w name zone es h k. ap (λ xs. holds xs k) (sym (ok-injective (w.endpoints name zone) es h));
  attached = λ w name zone es h z k.
      both_zones name zone z (es ++ w.endpoints name zone) w.endpoints
        (λ xs y b. holds xs k ≡ (b && holds es k || holds (w.endpoints name y) k))
        (holds-append es (w.endpoints name zone) k) (λ e. refl);
  detached = λ w name zone es h z k.
      both_zones name zone z (drop_held es (w.endpoints name zone)) w.endpoints
        (λ xs y b. holds xs k ≡ (not (b && holds es k) && holds (w.endpoints name y) k))
        (holds-drop_held es (w.endpoints name zone) k) (λ e. refl);
}

found-no_panic : (g : Option NetworkEndpointGroup) → found g ≢ panic
found-no_panic none h = cc
found-no_panic (some g) h = cc

created_here :
    (g : NetworkEndpointGroup) (zone : Str) (w : World)
    → (create_group g zone w).0 ≡ none
    → found ((create_group g zone w).1.groups g.name zone) ≡ ok g
created_here g zone w h = elim (Option-cases (w.groups g.name zone)) [
  | inl e ↦ rw (create_group, e, write-here g.name zone (some g) w.groups) refl
  | inr (old, e) ↦ absurd (cc (rw (create_group, e) at h))
]

create_keeps :
    (g : NetworkEndpointGroup) (zone name z : Str) (w : World)
    → str_eq zone z ≡ false
    → (create_group g zone w).1.groups name z ≡ w.groups name z
create_keeps g zone name z w e = elim (Option-cases (w.groups g.name zone)) [
  | inl h ↦ rw (create_group, h, write-elsewhere g.name zone name z (some g) w.groups e) refl
  | inr (old, h) ↦ rw (create_group, h) refl
]

pub cloud-GroupLaws : GroupLaws cloud
cloud-GroupLaws = record {
  created = λ w g zone h. created_here g zone w h;
  created_elsewhere = λ w g zone name z e. ap found (create_keeps g zone name z w e);
  deleted_elsewhere =
      λ w name zone z e. ap found (write-elsewhere name zone name z none w.groups e);
  no_panic = λ w name zone. found-no_panic (w.groups name zone);
}

abbrev pub empty_world : World
empty_world = record { groups = λ name zone. none; endpoints = λ name zone. [] }

unfoldable pub node_zone : Str → Result Str
node_zone node =
    if str_eq node (codes "instance1")
    then ok (codes "zone1")
    else if str_eq node (codes "instance3")
    then ok (codes "zone2")
    else err (plain (codes "Not Found"))

abbrev pub zones : ZoneGetter World
zones = record {
  list_zones = λ w. ok (codes "zone1" ∷ codes "zone2" ∷ []);
  get_zone_for_node = λ w node. node_zone node;
}
