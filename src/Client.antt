-- ===== src/Client.antt =====
-- Client.c and Client.h: the coordinator of a voted read or write.
pub mod Messages
pub mod Tally
pub mod Select
pub mod Connect
pub mod Quorum
pub mod Versions
pub mod Votes
pub mod Contact
pub mod Coordination
pub mod Locations
