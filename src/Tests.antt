-- ===== src/Tests.antt =====
-- The properties at concrete inputs, against a small Redis server and a small cluster.
mod Fakes
mod Stores
mod Claims
mod Services
mod Pools
mod Projects
mod Clusters
mod Routes
mod Activations
mod Protocols
mod Transports
mod Setups
mod Waits
mod Repeats
mod Probes
mod Runs
mod Processes
mod Crossings
mod Firsts
mod Fillings
