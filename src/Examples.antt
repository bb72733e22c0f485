-- ===== src/Examples.antt =====
-- The properties on concrete inputs.
mod Books
mod Sessions
mod Orders
mod Queues
mod Stored
mod Messages
mod Programs
mod Replaced
