-- ===== src/Logger.antt =====
-- logger/logger.h and logger/logger.cpp: a queue of lines, and a thread that prints them.
pub mod Steps
pub mod Order
pub mod Drain
pub mod Lifetime
mod Runs
