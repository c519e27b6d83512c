-- ===== src/Tests.antt =====
-- The code at work on small installations.
mod Fixtures
mod Planning
mod Running
mod Systems
mod Clients
