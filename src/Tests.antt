-- ===== src/Tests.antt =====
-- The theorems of the library, applied to concrete clients, packets and frames.
mod Data
mod Network
mod Codec
mod Model
mod Relay
mod Mailboxes
mod Server
mod Runtime
