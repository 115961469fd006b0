-- ===== src/Tests.antt =====
-- Concrete inputs.
mod Accounting
mod Store
mod Probes
mod Setup
mod Supervision
mod Loops
mod Channels
mod Conversations
mod Published
mod Launch
mod Interleaving
