-- ===== src/Decoders.antt =====
-- vncdotool/decoders/: one module for each encoding, on the base classes of Base.
pub mod Base
pub mod Simple
pub mod Rre
pub mod Hextile
pub mod Tight
pub mod Zrle
pub mod Sizes
