-- ===== src/Lib.antt =====
-- A model of the eventing manager: the operator that keeps event subscriptions of a Kyma cluster in
-- step with a messaging backend. The parts and their files:
--
--   Base, Errors, Exec    what the other parts share: Go's strings, maps and integers, errors and
--                         `errors.Is` (pkg/errors), and methods that change an object and return an
--                         error or panic. The state comes back beside every outcome.
--   Subscription          the Subscription resource (api/eventing/v1alpha2): its types, and its
--                         conditions with their initialisation, setting and readiness, and
--                         its finalizer (internal/controller/eventing/subscription).
--   Validator             the validation of a Subscription
--                         (internal/controller/eventing/subscription/validator).
--   Cleaner               what each backend strips from sources and types (pkg/backend/cleaner).
--   EventTypeName         parsing, building and cleaning of event types (pkg/backend/eventtype).
--   JetStream             the NATS backend (pkg/backend/jetstream): Subjects has keys and subjects,
--                         Config the stream and consumer configuration, Connection `Initialize` and
--                         the connection check, Consumers the steps on one consumer, and Backend
--                         `SyncSubscription`, `DeleteSubscription`, `DeleteSubscriptionsOnly` and
--                         `DeleteInvalidConsumers`.
--   NatsConnection        the connection that watches NATS (internal/connection/nats).
--   OperatorStatus        the status of the Eventing resource (api/operator/v1alpha1/status.go).
--   Operator              the reconciler of the Eventing resource
--                         (internal/controller/operator/eventing): Status has status.go, Nats and
--                         Secrets and EventMesh the subscription managers (nats.go, eventmesh.go,
--                         domain.go), Deletion, Backends and Reconcile the rest of controller.go,
--                         Calls what a method that has returned has called, and Lifecycle the
--                         sequences of its steps.
--   Runtime               the reply of a reconciler to the controller runtime.
--   SubscriptionReconciler
--                         the reconciler of a Subscription on NATS
--                         (internal/controller/eventing/subscription/jetstream): Status writes the
--                         status, with `IsSubscriptionStatusEqual` (pkg/object/equality.go), Metrics
--                         counts consumers, Deletion and Reconcile are the rest.
--   Tests                 concrete inputs, with a NATS server in memory.
--
-- A definition has the name of the Go function in lower case. The state of the backend is the record
-- `JetStream`, with the state of the NATS library beside its fields. The NATS client and server are
-- the record `Nats` of operations over an unknown state; `IsLawful` has what is documented of the
-- consumers on a server, and Tests.Server fills both. The digest of consumer names, URL parsing,
-- the cloud event library and the cluster client are parameters too. All loops run over lists by
-- structural recursion, so there is no fuel. Go maps are association lists: a theorem for all lists
-- is one for all orders of iteration. Go's `int` is a sign and a natural number with the bounds of
-- 64 bits where `strconv.Atoi` checks them.
--
-- The reconciler of the Eventing resource is the record `Operator`, with the copy of the resource that
-- a call works on. What it calls through Go interfaces is the record `Cluster` of operations over one
-- unknown state, in which managers, connections and watchers are references. `IsCalm` says that they
-- return or fail, and do not panic; a missing deployment is an answer without an error. A reply is the result and the error that the controller runtime
-- gets. `NatsConfig` leaves out the limits of idle connections, which the reconciler only passes on.
--
-- Not modelled: the message callback of the backend, the reconciler of subscriptions on the EventMesh
-- backend, the set-up of the controllers with their predicates, the subscription managers, the
-- EventMesh backend, the resources of the publisher proxy, and logging, recorded events and the
-- metrics collector, on which no modelled decision depends.
pub mod Base
pub mod Errors
pub mod Exec
pub mod Runtime
pub mod Cleaner
pub mod JetStream
pub mod Subscription
pub mod NatsConnection
pub mod EventTypeName
pub mod Validator
pub mod OperatorStatus
pub mod Operator
pub mod SubscriptionReconciler
pub mod Tests
