-- ===== src/Tests.antt =====
-- Runs of the model on samples, and each theorem at a sample.
mod Samples
mod Messages
mod Wrappers
mod Nodes
mod Rings
mod Calls
mod Leaves
mod Joins
mod Starts
mod Trackers
mod Clients
