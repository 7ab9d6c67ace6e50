-- ===== src/Tests.antt =====
-- Runs of the code on small inputs, and the theorems at inputs that meet their hypotheses.
mod Keys
mod Directories
mod Documents
mod Checksums
mod Buffers
mod Volumes
mod Waits
mod Segments
