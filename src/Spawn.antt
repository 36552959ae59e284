-- ===== src/Spawn.antt =====
-- spawn.c: the internal spawn task, which serves the interrupts of the network processor.
pub mod Counter
pub mod Drain
pub mod Tests
