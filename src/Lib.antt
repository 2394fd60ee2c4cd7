-- ===== src/Lib.antt =====
-- exalsius-operator: the Kubernetes operator that places GPU workspaces on the clusters of its
-- tenants.
--
-- The parts and how they interact. The workspace controller
-- (internal/controller/workspaces/workspacedeployment_controller.go) takes one WorkspaceDeployment
-- from its class to a running Helm release and, on deletion, back. On the way it merges the
-- resources (merge.go), asks the GPU inventory whether the requested GPUs exist and are free
-- (internal/gpu/offering.go), evaluates the prerequisites of the class (prerequisites.go), writes
-- the resources into the Helm values (inject.go) under the names of routing/naming.go, and keeps a
-- port of the tenant's Gateway for each TCP endpoint (routing/gatewayapi/portpool.go).
--
--   Kube           nodes, pods, conditions, and the answer of an API read
--   Gpu            internal/gpu/offering.go: constants, options and selectors; Gpu/Availability has
--                  AvailabilityForSelector and AvailableForModel, Gpu/Offerings DeriveOfferings
--                  and Gpu/Placeable where Kubernetes can place a pod
--   InjectPath     parsePath of internal/controller/workspaces/inject.go
--   Values         JSON values and setNestedValue of inject.go
--   Resources      mergeResources of merge.go, and the GPU request of the workspace controller
--   Inject         injectResources, injectNodeSelector, injectGPUResourceName of inject.go
--   Naming         routing/naming.go, and the names of service_apply.go and prerequisites.go
--   Prerequisites  evaluatePrerequisites and its readers in prerequisites.go
--   Workspace      setCondition and isOlderWorkspace of the workspace controller, markFailed of
--                  failurecontext.go
--   Queue          gateGPUOffering and hasOlderWaitingSibling of the workspace controller
--   Feasibility    computeFeasibility of feasibility.go
--   Merge          mergeValuesMap of merge.go
--   Mesh           the mesh labels of routing/naming.go and ensureWorkspaceNamespace (namespace.go)
--   Class          workspaceclass_controller.go, with validateInjectionPaths of inject.go
--   Run            the state of one run of the workspace controller and the monad of its steps;
--                  World has what the other systems answer to a run
--   Setup          the steps before the deployment: class, cluster, feasibility, gate, prerequisites
--                  (with ensurePrerequisiteServiceSet of prerequisites.go)
--   Deploy         startDeployment, with ensureWorkspaceServiceSet of service_apply.go
--   Watch          checkServiceReadiness, and reconcileRoutes of routes.go
--   Reconcile      Reconcile, which composes all of these; Reconcile/Sound says what a status keeps,
--                  Reconcile/Phases which phase may follow which, Reconcile/Reachable has the
--                  histories of runs and edits
--   Teardown       reconcileDelete of the workspace controller with cleanupRoutes (routes.go), the
--                  deletions of service_apply.go and deleteWorkspaceNamespace (namespace.go)
--   PortPool       routing/gatewayapi/portpool.go
--   Regional       internal/controller/infra/common/regional.go: regional clusters and their clients
--   Endpoint       the API endpoint of a control plane: internal/controller/infra/common/
--                  service_discovery.go and internal/controller/infra/cilium/
--                  api_endpoint_configmap.go
--   Provider       EnsureRoutes of routing/gatewayapi/provider.go, on the state of the regional and
--                  the child cluster: Provider/Context finds the tenant Gateway, Provider/Objects
--                  writes the objects of an endpoint, Provider/Routes is the loop over the endpoints
--   Sweep          CleanupRoutes of provider.go, SweepOrphans (sweep.go) and sweepOnce
--                  (routes_sweeper.go)
--   Examples       the theorems at concrete inputs
--
-- Functions keep their names in snake case. A Go string is the list of its bytes, a map an
-- association list, a struct a record, an error a constructor of the result. Loops are recursion on
-- the list that they range over, so no fuel is needed. The maps that one tree of Helm values holds
-- are not shared, so a write through a pointer is an update of the tree. Counts and quantities are
-- natural numbers: the API server rejects negative ones, and a subtraction that the source clamps at
-- 0 is the subtraction of natural numbers.
--
-- A call of another system is a parameter: the answers of the Kubernetes API to the reads and
-- writes of a run (Fetched, Answers, RouteAnswer, World), the hexadecimal SHA-256 digest (IsHex says how
-- long it is and of which characters), the grace period of a deletion, and the printing of a
-- quantity. Texts that are only shown to people are left out.
--
-- The route provider works on a state, since its clients read the clusters themselves: what an
-- endpoint has written the next one reads. Replies says of each request whether it is answered.
--
-- In a run the object in memory and the stored one are apart: a status update that succeeds stores
-- the one in memory, a read in the middle of a run brings the stored one back, and nobody else
-- writes the status while a run lasts. A history alternates runs with edits of the specification.
--
-- Not modelled: the controller of colonies and their ClusterDeployments, the preflight check and the
-- start of the manager; of the workspace controller the events, the messages and the watch mappers.
pub mod Prelude
pub mod Kube
pub mod Gpu
pub mod InjectPath
pub mod Values
pub mod Regional
pub mod Resources
pub mod Inject
pub mod Naming
pub mod Prerequisites
pub mod Workspace
pub mod World
pub mod Setup
pub mod Watch
pub mod Class
pub mod Deploy
pub mod Reconcile
pub mod Sweep
pub mod Teardown
pub mod PortPool
pub mod Provider
pub mod Queue
pub mod Feasibility
pub mod Merge
pub mod Mesh
pub mod Run
pub mod Endpoint
pub mod Examples
