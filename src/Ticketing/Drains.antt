-- ===== src/Ticketing/Drains.antt =====
-- That the worker gets a row through: with a database that answers, a row that is due is claimed,
-- and after enough calls it has a ticket or is given up.
pub mod Takes
pub mod Ends
pub mod Rounds
pub mod Liveness
