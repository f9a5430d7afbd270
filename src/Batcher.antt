-- ===== src/Batcher.antt =====
-- The match batcher: infrastructure/internal/batcher/batcher.go.
pub mod Config
pub mod Wait
pub mod Batch
pub mod Settle
pub mod Loop
pub mod Export
