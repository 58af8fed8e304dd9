-- ===== src/Tests.antt =====
-- Concrete inputs for the theorems: a NATS server in memory, and a run of each theorem on it.
mod Server
mod Backend
mod Subscriptions
mod Names
mod Operator
mod OperatorRun
