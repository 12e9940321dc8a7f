-- ===== src/Tests.antt =====
-- Runs of the model on small stores, and the theorems at inputs that meet their hypotheses. The
-- nodes have the addresses 8, 12 and 16, and the queue holds a `usize`.
mod Removals
mod Nodes
mod Permits
mod Acquiring
mod Waiters
mod Parking
mod Spinning
mod Boxing
mod Handing
mod Waking
mod Notifying
mod Draining
mod Locking
mod Visiting
