-- ===== src/Supervisor.antt =====
-- internal/supervisor: the gate, the runner of one check, what is done about an event, and the
-- watcher of the dockerapi.
pub mod Gate
pub mod Runner
pub mod Actions
pub mod Handler
pub mod Watcher
pub mod System
