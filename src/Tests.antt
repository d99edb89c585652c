-- ===== src/Tests.antt =====
-- Samples, and the theorems at them.
mod Samples
mod Schema
mod Passes
mod Traversal
mod Queries
mod Texts
mod Views
mod Runtime
mod RawPlans
mod NewNames
mod Translation
mod AbstractPlans
mod Items
mod Clients
mod Heaps
