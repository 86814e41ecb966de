-- ===== src/Tests.antt =====
-- Runs of the definitions at numbers, and the theorems at concrete buckets.
mod Runs
mod Examples
mod Epoches
mod Locks
mod Durable
mod Texts
mod Tables
mod Readers
mod Crashes
mod Pins
mod Overlaps
