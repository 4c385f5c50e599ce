-- ===== src/Examples.antt =====
-- The theorems about lab6 and lab3 applied to concrete states and messages.
mod Acceptors
mod Proposers
mod Clusters
mod Deciding
mod Candidates
mod Learners
mod Detectors
mod Accounts
mod Servers
mod Clients
mod Peers
mod Heartbeats
mod Logs
mod Applications
mod Benchmarks
