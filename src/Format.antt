-- ===== src/Format.antt =====
-- The instances of `SlotFormat` that the specialisations of SlotRecord give.
pub mod Flat
pub mod Entry
pub mod Text
