-- ===== src/Examples.antt =====
-- Runs of the modelled code at concrete inputs.
mod Buffers
mod Captures
mod Commands
mod Formats
mod Handshakes
mod Links
mod Proxies
mod Rectangles
mod Streams
mod Tools
