-- ===== src/Instances/Groups.antt =====
-- Making and deleting instance groups: Get, EnsureInstanceGroupsAndPorts and DeleteInstanceGroup of
-- pkg/instances/instances.go.
use ingress_gce.Base.{
  ℕ, Bool, true, false, ◌||◌, none, some, List, [], ◌∷◌, ◌++◌, Str, Error, Result, ok, err, panic,
  Failure, new_aggregate, length, ◌==◌, if◌then◌else◌,
}
use ingress_gce.Base.Maps.{put, remove, str_Eq}
use ingress_gce.Http.{
  status_not_found, status_conflict, is_http_error_code, is_not_found_error, is_in_used_by_error,
}
use ingress_gce.Namer.{named_port}
use ingress_gce.Instances.{ZoneLister, NamedPort, InstanceGroup, InstanceGroups, Pool, fail_with}

unfoldable pub has_port : List NamedPort → ℕ → Bool
has_port [] p = false
has_port (np ∷ ports) p = if np.port == p then true else has_port ports p

-- the ports that are not there yet, with their names
unfoldable pub new_named_ports : List NamedPort → List ℕ → List NamedPort
new_named_ports existing [] = []
new_named_ports existing (p ∷ ports) =
    let rest = new_named_ports existing ports in
    if has_port existing p then rest else record { name = named_port p; port = p } ∷ rest

module _ {World : Type 0} (Z : ZoneLister) (C : InstanceGroups World) where
  -- Get; the name is remembered if there is such a group.
  unfoldable pub get_group : Str → Str → Pool → World → Result InstanceGroup × Pool
  get_group name zone pool w = elim (C.get_instance_group name zone w) [
    | ok ig ↦ (ok ig, put name tt pool)
    | err e ↦ (err e, pool)
    | panic ↦ (panic, pool)
  ]

  -- the ports that are missing are set along with those that are there
  unfoldable pub ensure_ports : Str → List ℕ → InstanceGroup → World → Result InstanceGroup × World
  ensure_ports zone ports ig w =
      let added = new_named_ports ig.named_ports ports in
      let done = C.set_named_ports_of_instance_group ig.name zone (ig.named_ports ++ added) w in
      if length added == 0
      then (ok ig, w)
      else (elim done.0 [ none ↦ ok ig | some e ↦ err e ], done.1)

  unfoldable pub get_and_ensure : Str → Str → List ℕ → World → Result InstanceGroup × World
  get_and_ensure name zone ports w = elim (C.get_instance_group name zone w) [
    | ok ig ↦ ensure_ports zone ports ig w
    | err e ↦ (err e, w)
    | panic ↦ (panic, w)
  ]

  -- A conflict means that another controller has made the group.
  unfoldable pub create_and_get : Str → Str → List ℕ → World → Result InstanceGroup × World
  create_and_get name zone ports w =
      let made = C.create_instance_group (record { name = name; named_ports = [] }) zone w in
      let again = get_and_ensure name zone ports made.1 in
      elim made.0 [
        | none ↦ again
        | some e ↦ if is_http_error_code (some e) status_conflict then again else (err e, made.1)
      ]

  unfoldable pub ensure_instance_group_and_ports :
      Str → Str → List ℕ → Pool → World → Result InstanceGroup × Pool × World
  ensure_instance_group_and_ports name zone ports pool w = elim (C.get_instance_group name zone w) [
    | ok ig ↦ (let done = ensure_ports zone ports ig w in (done.0, put name tt pool, done.1))
    | err e ↦
        if is_http_error_code (some e) status_not_found
        then (let done = create_and_get name zone ports w in (done.0, pool, done.1))
        else (err e, pool, w)
    | panic ↦ (panic, pool, w)
  ]

  unfoldable pub ensure_in_zones :
      Str → List ℕ → List Str → Pool → World → Result (List InstanceGroup) × Pool × World
  ensure_in_zones name ports [] pool w = (ok [], pool, w)
  ensure_in_zones name ports (zone ∷ zones) pool w =
      let done = ensure_instance_group_and_ports name zone ports pool w in
      let rest = ensure_in_zones name ports zones done.1 done.2 in
      elim done.0 [
        | ok ig ↦
            (elim rest.0 [ ok igs ↦ ok (ig ∷ igs) | err e ↦ err e | panic ↦ panic ], rest.1, rest.2)
        | err e ↦ (err e, done.1, done.2)
        | panic ↦ (panic, done.1, done.2)
      ]

  -- The name is remembered also after an error of a zone, since that is deferred.
  unfoldable pub ensure_instance_groups_and_ports :
      Str → List ℕ → Pool → World → Result (List InstanceGroup) × Pool × World
  ensure_instance_groups_and_ports name ports pool w = elim Z.list_zones [
    | ok zones ↦
        (let done = ensure_in_zones name ports zones pool w in (done.0, put name tt done.1, done.2))
    | err e ↦ (err e, pool, w)
    | panic ↦ (panic, pool, w)
  ]

  -- A group that is not there, or in use, is no error.
  unfoldable pub delete_from_zones : Str → List Str → List Error → World → List Error × World
  delete_from_zones name [] errors w = (errors, w)
  delete_from_zones name (zone ∷ zones) errors w =
      let done = C.delete_instance_group name zone w in
      let ignored = is_not_found_error done.0 || is_in_used_by_error done.0 in
      delete_from_zones name zones (if ignored then errors else fail_with done.0 errors) done.1

  unfoldable pub delete_instance_group : Str → Pool → World → Result Failure × Pool × World
  delete_instance_group name pool w = elim Z.list_zones [
    | ok zones ↦
        (let done = delete_from_zones name zones [] w in
          (ok (new_aggregate done.0), remove name pool, done.1))
    | err e ↦ (ok (some e), remove name pool, w)
    | panic ↦ (panic, remove name pool, w)
  ]
