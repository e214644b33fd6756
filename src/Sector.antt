-- ===== src/Sector.antt =====
-- A sector: its states, the record that is kept of it, and the events that change it.
pub mod State
pub mod Info
pub mod Event
pub mod Apply
pub mod Frame
