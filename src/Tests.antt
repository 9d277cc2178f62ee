-- ===== src/Tests.antt =====
-- Runs of the models at concrete inputs, and the theorems at inputs that meet their hypotheses.
mod Storage
mod Replication
mod Coordinator
mod Failover
mod LoadBalancer
mod Password
mod Wire
mod Cloud
mod Server
mod Frontend
mod Accounts
mod Http
mod KvClient
mod Csv
