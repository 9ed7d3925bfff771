-- ===== src/Examples.antt =====
-- Tests of the model on small inputs, and each theorem applied where its hypotheses hold.
mod Configs
mod Models
mod Queues
mod Servers
mod Proxies
mod Starts
mod Replicas
