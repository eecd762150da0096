-- ===== src/Tests.antt =====
-- Concrete inputs for the theorems of the other modules, and tests of the definitions.
mod Caches
mod Nodes
mod Simulators
mod Levels
mod Machines
mod Placements
mod Threads
mod Graphs
mod Engines
mod Cores
