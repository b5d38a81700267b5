-- ===== src/Examples.antt =====
-- Runs of the model on small inputs, and the theorems at concrete inputs.
mod Timestamps
mod Trees
mod Replacement
mod Snapshots
mod Swaps
mod Nodes
mod Words
mod Drivers
mod Entries
