-- ===== src/Tests.antt =====
-- Runs of the code on small inputs, and the theorems applied to them.
mod Sort
mod Registry
mod Forest
mod Addresses
mod Trace
mod Analyze
mod Liveness
mod Redundancy
