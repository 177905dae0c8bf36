-- ===== src/Tests.antt =====
-- Runs of the model on concrete inputs, among them those of the repository's own tests.
mod Books
mod Wires
mod ClientLists
mod Servers
mod Messages
mod Managers
mod Protocols
mod Consoles
mod Programs
mod Sources
mod Listeners
