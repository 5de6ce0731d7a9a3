-- ===== src/Lib.antt =====
-- The backend of KubeNDT: what its requests are checked for, and the state that it keeps of a
-- topology. KubeNDT runs network topologies in a Kubernetes cluster: nodes are StatefulSets whose
-- replicas are pods called <node>-<index>, and links are entries of the pods' Topology objects.
--
-- Parts, and the files that model them:
-- - Types, Types/Addresses, Types/Actions, Types/Configure: the data model (backend/types/types.go, addrs.go,
--   config.go), records with the fields of the Go structs.
-- - Names: pod names and references to nodes (backend/helpers/network.go: ToCRDPeerPod,
--   FromCRDPeerPod, isIndexedPodName, ResolvePodNameFromLink, ConvertToNodeNameIfSingleReplica;
--   backend/helpers/network_modify.go: SplitIndexedPodName).
-- - Links: the checks of links (network_modify.go: ValidateLinkName, ValidateLinkEndpoint,
--   ValidateLinksForModify), which use Names.
-- - Interfaces: the check for interfaces that are in use (network_modify.go:
--   ValidateInterfaceConflicts, claimedInterfaces, checkInterfaceConflicts).
-- - Topologies: the entries of Topology objects and their removal (network_modify.go:
--   buildPerPodLinkEntries, ValidateDeleteLinksExist, RemoveSpecificLinksFromTopologies,
--   RemoveLinksReferencingDeletedPods); Topologies/Create, the objects of new pods (network.go:
--   CreateTopologyObject, CreateTopologyForPod, resolveLinkUIDs); Topologies/Upserts, links added to
--   objects (network_modify.go: upsertAppendLinksInTopologies); Topologies/Readback, the links that
--   objects hold (BuildLinksFromTopologyCRDs); Topologies/Scope, those around some pods
--   (FilterLinksByPods). A request for new nodes creates their objects and then upserts its links.
-- - ExternalLabels: the labels of uplinks (network.go: ValidateExternalLabelConsistency,
--   buildNamespaceExternalLabelMaps, extractExternalSide), over the entries of Topologies.
-- - Paths, Trace: the traceroute of a pod (backend/helpers/trace.go). Paths models the pods between
--   two hops (BuildPodAdjacency, BFSPath) over the links that Readback reads. The search runs on fuel
--   for one pop per name that stands in the adjacency, since a pod is queued once, and the way back
--   on fuel for one step per pod entered. Trace, Trace/Hops and Trace/Index model the lines of a
--   probe, the loops of RunTrace and the index of addresses (BuildTraceIPIndex); the regular
--   expressions are arguments, and so is the order in which the goroutines of the index report.
-- - LinkUid: identifiers of links (backend/helpers/network_uids.go: PrepareUniqueLinkUIDs,
--   generateAvailableLinkUID). A loop with side effects on maps is a function that passes the maps
--   on; the scan for a free identifier runs once for each number of the range, so it needs no other
--   bound. LinkUid/Registry, the table of identifiers and its syncs with the Topology objects
--   (SyncLinkUIDRegistryFromCluster, SyncNamespaceLinkUIDRegistry, DeleteNamespaceLinkUIDRegistry):
--   the rebuild runs when the backend starts, and PrepareUniqueLinkUIDs reads what it left.
-- - Scale: the scale section of a request (backend/helpers/network_scale.go: BuildScalePlans,
--   SplitScalePlans, ApplyEffectiveReplicasToNodes, and the pods that ApplyScaleDowns and
--   ApplyScaleUps select). It runs before the links of the same request are checked.
-- - History: the history of configuration actions (backend/helpers/driver_operation_history.go),
--   over the state declarations of backend/actions/registry.go. An operation that changes the table
--   takes it and returns it beside its result, on the error paths too.
-- - Locks: the operation lock and the topology flag of a namespace
--   (backend/helpers/namespace_state.go). Handlers that change a namespace take its lock first;
--   the handlers' interleavings are sequences of steps. Locks/Deleted, the sync of the flag and the
--   deletion of a namespace's state, which takes no lock.
-- - Auth: the limit on failed logins (Auth/Limiter, backend/auth/loginlimit.go), browser sessions
--   and API tokens (Auth/Sessions, Auth/Tokens, backend/auth/auth.go).
-- - NodeInputs, LinkIps, Placement: the checks of a node's fields, of the links' addresses
--   (backend/helpers/topology_validation.go) and of where nodes may be placed
--   (backend/helpers/placement.go). An error keeps the names that its text would show.
-- - Shaping: the links section of a configure request as actions on pods
--   (backend/helpers/link_shaping.go: expandLinkShaping, linkPeer, linkIPs). The closure `add`, which
--   changes the list of targets, is a function on that list.
-- - Attributes, Rows: the attributes that a topology declares on links and their table
--   (backend/helpers/link_attributes.go). A statement on the table is a function on its rows, with
--   the primary key as the key of an association list; Rows/View shows the rows as a partial
--   function, and Rows/Ops what a run of operations makes of it.
-- - LinkMtus: the MTUs of the links section (link_shaping.go: RecordLinkMTUs), which puts Shaping,
--   Attributes and Rows together; the table is returned beside the result, on the error paths too.
-- - Targets: the pods that a configure request names and the merge of its targets
--   (backend/helpers/pod_reference.go, backend/helpers/configure_targets.go).
-- - Plans, Pipeline: planning and running the actions of a pod (backend/helpers/action_pipeline.go:
--   PlanActions, RunPlannedActions; backend/helpers/netns_tools.go: toolClassOfRows;
--   backend/helpers/configurator.go: ResolveActionFlags). The targets that Shaping and Targets make
--   are what is planned. The loop runs on fuel, one turn for each action, and each turn takes at
--   least one action. What a pod answers is a function of the requests sent before and of the
--   request, so that a later answer may differ from an earlier one.
-- - Script: several actions as one shell script and its output taken apart
--   (action_pipeline.go: shellScript, parseShellScript, batchResult; backend/helpers/tool_runner.go:
--   shellQuote), which Pipeline uses.
-- - Commands: the commands of executors and their registry (backend/executor/command.go, base.go,
--   exec.go), which Pipeline uses.
-- - Prelude: what the parts share; Prelude/Text, Prelude/Words and Prelude/Decimal model the parts of
--   Go's strings and strconv packages that the parts need, with the range of a 64-bit int.
--
-- Integers that a request may make negative are integers, other counts are natural numbers. Answers
-- of the cluster and the database, random numbers, the JSON codec and timestamps are arguments.
--
-- Not modelled: the HTTP handlers, the drivers, which build command lines for network operating
-- systems, the parser of shaping values (backend/helpers/tc.go), which reads floating-point numbers,
-- the calls of the cluster behind the executors, the other writes to Kubernetes objects, the replay
-- of the history into a pod, the metrics and the command lines of a trace, the pods, files and images
-- (backend/helpers/pods.go, files.go, images.go), the MTU pass and the healing of links (mtu.go,
-- heal.go), which drive pods, the generated documentation (backend/docs), and the web interface.
mod Prelude
pub mod Scale
pub mod Topologies
pub mod Shaping
pub mod Targets
pub mod Commands
pub mod Plans
pub mod Paths
pub mod Pipeline
pub mod Attributes
pub mod Placement
pub mod LinkIps
pub mod NodeInputs
pub mod Rows
pub mod LinkMtus
pub mod Script
pub mod Trace
pub mod Types
pub mod Names
pub mod Locks
pub mod Links
pub mod Auth
pub mod ExternalLabels
pub mod History
pub mod Interfaces
pub mod LinkUid
