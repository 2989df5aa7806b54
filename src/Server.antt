-- ===== src/Server.antt =====
-- Server.c, Server.h and Vote.h: a replica of the voted key-value store.
pub mod Table
pub mod Handlers
pub mod Thread
pub mod Accept
pub mod Start
pub mod Get
pub mod Put
pub mod Readers
pub mod Exclusion
