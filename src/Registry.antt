-- ===== src/Registry.antt =====
-- The registry of project stores (src/scs/storage/registry.py).
mod World
mod Graphs
mod Deletion
mod Unregistered
mod Recovery
mod Opening
mod Phases
mod Clearing
mod Crashes
mod Inversion
mod Bindings
mod Tests
