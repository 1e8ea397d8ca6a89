-- ===== src/Examples.antt =====
-- Concrete data and runs of the models.
mod Data
mod Codec
mod Policies
mod Sessions
mod Runtimes
mod Helpers
mod Addresses
mod Routes
