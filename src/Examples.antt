-- ===== src/Examples.antt =====
-- A concrete platform, runs of the whole model on it, and the theorems at concrete inputs.
mod Machine
mod Running
mod Runs
mod Unmapping
mod Requests
mod Blocks
mod Lists
mod Pools
mod Caches
mod Crew
mod Stores
mod Heaps
mod Sessions
