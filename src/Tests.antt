-- ===== src/Tests.antt =====
-- Tests on concrete inputs, on the servers of Fixtures and the objects of Objects.
mod Fixtures
mod Objects
mod Machines
mod Options
mod Clusters
mod Images
mod Launching
mod Kini
mod Streams
