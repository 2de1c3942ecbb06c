-- ===== src/Tests.antt =====
-- The theorems at concrete inputs.
mod Bytewise
mod Texts
mod Tunnel
mod Handlers
mod System
mod Programs
mod Safety
mod Translation
mod Guide
mod Network
