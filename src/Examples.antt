-- ===== src/Examples.antt =====
-- Concrete inputs of the theorems that have hypotheses.
mod Locks
mod Lists
mod Clients
mod Dfs
mod Queues
mod Servers
mod Files
mod Http
mod Paths
