-- ===== src/Neg/Cloud.antt =====
-- The interfaces of pkg/networkendpointgroup/interfaces.go through which the package reaches GCE and
-- the nodes. `World` is the state of the cloud; an operation that writes returns it with its error.
pub mod Laws
use ingress_gce.Base.{
  Bool, true, false, ◌&&◌, ◌||◌, List, [], ◌∷◌, map, Str, Result, Failure, none, Option, str_eq, ok,
  if◌then◌else◌, ◌≡◌,
}
use ingress_gce.Neg.Endpoint.{NetworkEndpoint}

-- The fields of the API's NetworkEndpointGroup that the package reads or writes.
pub record NetworkEndpointGroup : Type 0 where
  pub name : Str
  pub neg_type : Str
  pub network_endpoint_type : Str
  pub network : Str
  pub subnetwork : Str

pub record ZoneGetter (World : Type 0) : Type 0 where
  pub list_zones : World → Result (List Str)
  pub get_zone_for_node : World → Str → Result Str

pub record NegCloud (World : Type 0) : Type 0 where
  pub get_network_endpoint_group : Str → Str → World → Result NetworkEndpointGroup
  pub aggregated_list_network_endpoint_group :
      World → Result (List (Str × List NetworkEndpointGroup))
  pub create_network_endpoint_group : NetworkEndpointGroup → Str → World → Failure × World
  pub delete_network_endpoint_group : Str → Str → World → Failure × World
  pub attach_network_endpoints : Str → Str → List NetworkEndpoint → World → Failure × World
  pub detach_network_endpoints : Str → Str → List NetworkEndpoint → World → Failure × World
  pub list_network_endpoints : Str → Str → World → Result (List NetworkEndpoint)
  pub network_url : Str
  pub subnetwork_url : Str
