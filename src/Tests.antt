-- ===== src/Tests.antt =====
-- Runs of the code on concrete inputs.
mod World
mod Partitions
mod Nodes
mod Cluster
mod Settings
mod Messages
mod Sets
mod Registry
mod Topics
mod QueueSync
mod Http
mod Startup
mod System
mod Compression
