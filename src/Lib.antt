-- ===== src/Lib.antt =====
-- A model of the core of ingress-gce, the controller that turns Kubernetes ingresses into GCE load
-- balancers: what its parts compute and how they keep the cloud's resources in step with the cluster.
--
-- Parts and files.
--   Base      shared helpers: byte strings (Str, with codes for literals), Boolean tests, integers, Go's
--             errors (Outcome: Error, Result with the panic of a run as a value, Failure for an error that
--             may be nil), splitting and prefixes of strings (Split), decimal numbers (Digits), Go's maps as
--             association lists (Maps).
--   Sets      the sets of strings of k8s.io/apimachinery as an interface with laws, met by lists.
--   Trim      trimFieldsEvenly of pkg/utils/utils.go.
--   Namer     pkg/utils/namer.go: set_uid is SetUID, name_belongs_to_cluster NameBelongsToCluster, and so on
--             for each method. crypto/md5 is a parameter: the hexadecimal digits of a sum.
--   Http      the tests of errors in pkg/utils/utils.go.
--   Instances pkg/instances/instances.go: the pool of instance groups (add_nodes is Add, remove_nodes Remove).
--   Pools     pkg/storage/pools.go: the pools of resources that the controller remembers.
--   Firewalls pkg/firewalls/firewalls.go: the one firewall rule of the load balancers.
--   Neg       pkg/networkendpointgroup: the network endpoint groups.
--     Endpoint    an endpoint and its encoding (encodeEndpoint, decodeEndpoint)
--     Cloud       the interfaces of interfaces.go, and what is relied on of the cloud (Laws)
--     Sync        calculateDifference, toNetworkEndpointBatch, syncNetworkEndpoints
--     Zones       toZoneNetworkEndpointMap, retrieveExistingZoneNetworkEndpointMap
--     Syncer      ensureNetworkEndpointGroups and sync
--     Lifecycle   Start, Stop, Sync and the loop of the goroutine as a step relation
--     Manager     the maps of ports and syncers (EnsureSyncers, StopSyncer, Sync, ShutDown)
--     Collect     GC, garbageCollectNEG and ensureDeleteNetworkEndpointGroup
--   HealthCheck   the health checks of pkg/healthchecks/healthchecks.go and their two forms in the cloud's API
--                 (to_compute_health_check is ToComputeHealthCheck, merge the method merge, and so on).
--   HealthChecks  the pool of pkg/healthchecks/healthchecks.go: new, sync, create, update, get, delete.
--     Conversion, Reading, Writes   a check that is sent and read back
--     Sync, Keeps                   what a sync leaves and what it keeps
--   Backends      pkg/backends/backends.go: the pool of backend services.
--     Services    Get, ensureHealthCheck, create, ensureBackendService, edgeHop
--     Collect     Delete, List, GC, Shutdown, Status
--     Links       Link, for network endpoint groups
--     Hop, Linking, Ensured, Tracked, Delete, Sweep, Swept, Collected, Grouped, Health, Settings   their properties
--   LoadBalancers pkg/loadbalancers/loadbalancers.go: an L7 load balancer and the pool of them.
--     Certs             usePreSharedCert, populateSSLCert, nextCertificateName, checkSSLCert, deleteOldSSLCert
--     ForwardingRules   checkForwardingRule and getEffectiveIP
--     Checks            checkUrlMap, checkProxy, checkHttpsProxy, checkStaticIP, and edgeHop, which runs them
--     UrlMaps           UpdateUrlMap, mapsEqual, getBackendNames, and GCEURLMap of pkg/utils/utils.go
--     L7s               Cleanup, and Add, Delete, Sync, GC and Shutdown of the pool
--
-- How they interact. Every part reaches the cloud through an interface of operations. A syncer reads the
-- Endpoints object and the cloud, takes the difference of two maps of sets (Zones, Sync), and launches calls
-- of the cloud in batches; the goroutines of these calls run in an order that is a parameter (schedule), of
-- which only is assumed that it runs the calls that were launched. The manager owns one syncer per port of a
-- service, and calls its Start, Stop and Sync; its garbage collection deletes the groups whose names no
-- service needs, after the lock is released: what other goroutines do to the cloud before each deletion is a
-- parameter (others). The names of the groups come from the Namer, through the interface NegNamer. The pool of
-- instance groups and the firewall rule use the tests of errors of Http and the names of the Namer. The pool
-- of backend services reaches the health checks through the interface HealthChecker, which HealthChecks
-- implements (Backends.Health.health_checker); it keeps the ports that it has ensured in a snapshot of Pools,
-- and so does the pool of load balancers. A load balancer's edge hop makes or corrects, in the order of their
-- links, the url map, the proxies and the forwarding rules; its clean-up deletes them in the reverse order.
-- The pool of load balancers ensures and deletes the default backend through the interface BackendPool. The
-- cloud is a state of any type with the operations of the interface, each of which may fail; the laws that a
-- theorem needs of it are hypotheses, and the Tests modules have clouds for them.
--
-- Bounds and fuel. The loop over the batches of a zone runs for at most as many rounds as the set has items:
-- each round takes out at least one (Neg.Sync.zone_plan, out_of_fuel if that did not suffice). The ports of
-- Namer.backend are natural numbers, below 2 ^ 63 where a theorem needs it. Delays are in nanoseconds.
-- The ports of service ports are natural numbers; GC of the backends parses the keys of its snapshot as ports
-- of 16 bits, and theorems about it ask that the keys are such. The names of a load balancer's resources are
-- cut to 63 bytes, as the Namer cuts them.
--
-- Not modelled: the cluster manager, the ingress and NEG controllers, annotations (GetLBAnnotations and
-- GCEResourceName too), the TLS loader, the vault of the UID and the fakes, which are left for a later
-- extension; the command's start-up, informers and work queues, events and logs, and vendored code, which have
-- no logic of their own here. A lock is not a state: a method under its lock is one step, and so is the
-- collection of the stopped syncers, which GC takes one by one.
pub mod Base
pub mod Sets
pub mod Trim
pub mod Namer
pub mod Http
pub mod Instances
pub mod Pools
pub mod Firewalls
pub mod Neg
pub mod HealthCheck
pub mod HealthChecks
pub mod Backends
pub mod LoadBalancers
