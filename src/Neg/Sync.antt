-- ===== src/Neg/Sync.antt =====
-- The body of a sync in pkg/networkendpointgroup/syncer.go: the difference of two maps of endpoints,
-- its cut into batches, and the calls that are launched for them. The calls run as goroutines, in an
-- order that the parameter `schedule` gives. Events, logs and the lock of the error list are left out.
pub mod Batches
pub mod Calls
pub mod Plans
pub mod Difference
use ingress_gce.Base.{
  ℕ, zero, suc, Bool, true, false, ◌&&◌, ◌||◌, Option, none, some, List, [], ◌∷◌, ◌++◌, Str, codes,
  Error, Result, ok, err, panic, Failure, new_aggregate, ltb, ◌==◌, if◌then◌else◌,
}
use ingress_gce.Base.Outcome.{◌>>=◌}
use ingress_gce.Base.Maps.{get, str_Eq}
use ingress_gce.Sets.{StringSets}
use ingress_gce.Neg.Endpoint.{NetworkEndpoint, to_network_endpoint}
use ingress_gce.Neg.Cloud.{NegCloud}

abbrev pub max_network_endpoints_per_batch : ℕ
max_network_endpoints_per_batch = 500

-- How a part of a sync ends: with no error, with an error, in a panic. A loop whose bound on the rounds
-- did not suffice would be `out_of_fuel`.
pub data Halt : Type 0 where
  finished : Halt
  failed : Error → Halt
  panicked : Halt
  out_of_fuel : Halt

unfoldable pub halt_of : Failure → Halt
halt_of none = finished
halt_of (some e) = failed e

-- The end of the loops, with the errors that the goroutines left after the wait.
unfoldable pub conclude : Halt → List Error → Halt
unfolding halt_of
conclude finished errors = halt_of (new_aggregate errors)
conclude (failed e) errors = failed e
conclude panicked errors = panicked
conclude out_of_fuel errors = out_of_fuel

-- A call that a goroutine makes.
pub data Call : Type 0 where
  attach detach : Str → List NetworkEndpoint → Call

-- The calls that were launched, and how the loops ended.
pub record Plan : Type 0 where
  pub calls : List Call
  pub halt : Halt

-- The second part runs only if the first has finished.
unfoldable pub then_plan : Plan → Plan → Plan
then_plan p q = elim p.halt [
  | finished ↦ record { calls = p.calls ++ q.calls; halt = q.halt }
  | failed e ↦ p
  | panicked ↦ p
  | out_of_fuel ↦ p
]

unfoldable pub launch : (List NetworkEndpoint → Call) → Result (List NetworkEndpoint) → Plan → Plan
launch make (ok es) rest = record { calls = make es ∷ rest.calls; halt = rest.halt }
launch make (err e) rest = record { calls = []; halt = failed e }
launch make panic rest = record { calls = []; halt = panicked }

-- the conversion of a batch
unfoldable pub convert_all : List Str → Result (List NetworkEndpoint)
convert_all [] = ok []
convert_all (enc ∷ rest) = do e ← to_network_endpoint enc; es ← convert_all rest; ok (e ∷ es)

module _ (S : StringSets) where
  open S use {Set, empty, has, difference, len, pop_any}

  -- A pop of an empty set ends the loop; the items that are not set are empty strings.
  unfoldable pub pop_items : ℕ → Set → List Str × Set
  pop_items zero s = ([], s)
  pop_items (suc n) s = elim (pop_any s) [
    | none ↦ (blanks (suc n), s)
    | some (x, t) ↦ (x ∷ (pop_items n t).0, (pop_items n t).1)
  ]
    where
      blanks : ℕ → List Str
      blanks zero = []
      blanks (suc k) = [] ∷ blanks k

  abbrev pub batch_size : Set → ℕ
  batch_size s =
      if ltb (len s) max_network_endpoints_per_batch then len s else max_network_endpoints_per_batch

  -- The set that is left is the argument, which the method changes in place.
  unfoldable pub to_network_endpoint_batch : Set → Result (List NetworkEndpoint) × Set
  to_network_endpoint_batch s =
      let popped = pop_items (batch_size s) s in (convert_all popped.0, popped.1)

  -- The loop over the batches of one zone, for at most `fuel` rounds.
  unfoldable pub zone_plan : (List NetworkEndpoint → Call) → ℕ → Set → Plan
  zone_plan make zero s = record { calls = []; halt = if len s == 0 then finished else out_of_fuel }
  zone_plan make (suc fuel) s =
      let batch = to_network_endpoint_batch s in
      let rest = zone_plan make fuel batch.1 in
      if len s == 0 then record { calls = []; halt = finished } else launch make batch.0 rest

  -- for zone, endpointSet := range endpoints; a zone's set is empty after as many rounds as it has items.
  unfoldable pub zones_plan : (Str → List NetworkEndpoint → Call) → List (Str × Set) → Plan
  zones_plan make [] = record { calls = []; halt = finished }
  zones_plan make ((zone, s) ∷ m) = then_plan (zone_plan (make zone) (len s) s) (zones_plan make m)

  unfoldable pub plan : List (Str × Set) → List (Str × Set) → Plan
  plan add_endpoints remove_endpoints =
      then_plan (zones_plan detach remove_endpoints) (zones_plan attach add_endpoints)

  -- m[zone], the nil set if there is none
  unfoldable pub zone_set : List (Str × Set) → Str → Set
  zone_set m zone = elim (get zone m) [ none ↦ empty | some s ↦ s ]

  unfoldable pub difference_map : List (Str × Set) → List (Str × Set) → List (Str × Set)
  difference_map [] other = []
  difference_map ((zone, s) ∷ m) other =
      let diff = difference s (zone_set other zone) in
      let rest = difference_map m other in if ltb 0 (len diff) then (zone, diff) ∷ rest else rest

  unfoldable pub calculate_difference :
      List (Str × Set) → List (Str × Set) → List (Str × Set) × List (Str × Set)
  calculate_difference target_map current_map =
      (difference_map target_map current_map, difference_map current_map target_map)

  module _ {World : Type 0} (C : NegCloud World) where
    unfoldable pub run_call : Str → Call → World → Failure × World
    run_call neg_name (attach zone es) w = C.attach_network_endpoints neg_name zone es w
    run_call neg_name (detach zone es) w = C.detach_network_endpoints neg_name zone es w

    -- the errors that the calls add to the list
    unfoldable pub run_calls : Str → List Call → World → List Error × World
    run_calls neg_name [] w = ([], w)
    run_calls neg_name (c ∷ cs) w =
        let done = run_call neg_name c w in
        let rest = run_calls neg_name cs done.1 in
        (elim done.0 [ none ↦ rest.0 | some e ↦ e ∷ rest.0 ], rest.1)

    -- A conversion that fails returns at once; the goroutines that were launched still run.
    unfoldable pub sync_network_endpoints :
        (List Call → List Call) → Str → List (Str × Set) → List (Str × Set) → World → Halt × World
    unfolding conclude
    sync_network_endpoints schedule neg_name add_endpoints remove_endpoints w =
        let p = plan add_endpoints remove_endpoints in
        let done = run_calls neg_name (schedule p.calls) w in (conclude p.halt done.0, done.1)
