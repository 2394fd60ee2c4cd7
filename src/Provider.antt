-- ===== src/Provider.antt =====
-- The Gateway API route provider: internal/controller/workspaces/routing/gatewayapi/provider.go.
-- This file has the state that a call works on, the answers that may disturb it, and the monad of a
-- call, which goes on with a state or ends with a fault in the state that was reached. Context is the
-- resolution of the tenant Gateway, Objects the writes of one endpoint, and Routes the whole call.
mod Keeps
mod Frames
pub mod Context
pub mod Exclusive
pub mod Domain
pub mod Pool
pub mod Served
pub mod Complete
pub mod Objects
pub mod Routes
use exalsius_operator.Kube.{Labels}
use exalsius_operator.Mesh.{Namespace, Created}
use exalsius_operator.PortPool.{TcpRoute, ParentReference, BackendRef}
use exalsius_operator.Prelude.{ℕ, Bool, true, false, Option, List, Text, if◌then◌else◌}

-- InfraNotReadyError, and every other error.
pub data Fault : Type 0 where
  infra_gap failure : Fault

pub record ServicePort : Type 0 where
  pub name : Text
  pub port : ℕ

pub record Service : Type 0 where
  pub labels : Labels
  pub ports : List ServicePort

pub record HttpRouteSpec : Type 0 where
  pub parent_refs : List ParentReference
  pub hostnames : List Text
  pub rules : List (List BackendRef)

-- One parent status of a route: the Gateway that it is of, and whether the route is accepted and
-- its references are resolved.
pub record ParentStatus : Type 0 where
  pub name : Text
  pub namespace : Option Text
  pub accepted : Bool
  pub resolved_refs : Bool

pub record HttpRoute : Type 0 where
  pub spec : HttpRouteSpec
  pub parents : List ParentStatus

-- The regional cluster and the child cluster: the mirror namespace with its Services and HTTPRoutes
-- by name, every TCPRoute of the regional cluster, and the labels of the Services of the workspace.
pub record Store : Type 0 where
  pub mirror : Option Namespace
  pub services : List (Text × Service)
  pub http_routes : List (Text × HttpRoute)
  pub tcp_routes : List TcpRoute
  pub child_services : List (Text × Labels)

pub data TcpRead : Type 0 where
  readable kind_missing unreadable : TcpRead

-- Whether the requests of a call are answered, by the name of the object.
pub record Replies : Type 0 where
  pub namespace_read : Bool
  pub namespace_creation : Created
  pub namespace_update : Bool
  pub service_read : Text → Bool
  pub service_creation : Text → Created
  pub service_update : Text → Bool
  pub child_read : Text → Bool
  pub child_update : Text → Bool
  pub http_read : Text → Bool
  pub http_creation : Text → Created
  pub http_update : Text → Bool
  pub tcp_read : Text → TcpRead
  pub tcp_listing : Text → Bool
  pub tcp_creation : Text → Created
  pub tcp_update : Text → Bool

pub data Trial (A : Type 0) : Type 0 where
  succeeded : A → Store → Trial A
  faulted : Fault → Store → Trial A

abbrev pub P : Type 0 → Type 0
P A = Store → Trial A

infixl 5 ◌>>=◌ ◌>>◌
abbrev pub ◌>>=◌ : {A B : Type 0} → P A → (A → P B) → P B
◌>>=◌ m f s = elim (m s) [ succeeded a s' ↦ f a s' | faulted e s' ↦ faulted e s' ]

abbrev pub ◌>>◌ : {A B : Type 0} → P A → P B → P B
m >> k = m >>= λ _. k

abbrev pub give : {A : Type 0} → A → P A
give a s = succeeded a s

abbrev pub done : P (Unit {0})
done s = succeeded tt s

abbrev pub fault : {A : Type 0} → Fault → P A
fault e s = faulted e s

abbrev pub store_of : P Store
store_of s = succeeded s s

abbrev pub change : (Store → Store) → P (Unit {0})
change f s = succeeded tt (f s)

-- An update: it is made, or it fails the call.
abbrev pub update_by : Bool → (Store → Store) → P (Unit {0})
update_by ok f = if ok then change f else fault failure

-- A create: an object that is there by the time of the create is left as it is.
abbrev pub create_by : Created → (Store → Store) → P (Unit {0})
create_by Created.created f = change f
create_by Created.already_exists f = done
create_by Created.create_failed f = fault failure

abbrev pub state_of : {A : Type 0} → Trial A → Store
state_of (succeeded a s) = s
state_of (faulted e s) = s
