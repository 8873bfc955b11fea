-- ===== src/Domain.antt =====
-- domain/: the enumerations of states and the transition tables.
pub mod States
pub mod Values
pub mod Messages
pub mod Transitions
pub mod Machines
pub mod Errors
pub mod Shell
