-- ===== src/Backup/Restores/Life.antt =====
-- A restore operation from its start to its end.
