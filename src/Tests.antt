-- ===== src/Tests.antt =====
-- The theorems of the other modules at concrete inputs.
mod Bytes
mod Requests
mod Text
mod Server
mod Handler
mod Programs
mod Forms
