-- ===== src/Tests.antt =====
-- Runs of the modelled code on concrete inputs.
mod Reliability
mod Network
mod Relays
mod Onions
mod Tokens
mod Trust
mod Toys
mod Sessions
mod Handshakes
