-- ===== src/Backup.antt =====
-- backend/internal/backup: the parts that decide when a backup runs.
pub mod Scheduler
pub mod Restores
pub mod Failure
pub mod Engine
pub mod Worker
pub mod Platform
