-- ===== src/Tests.antt =====
-- Concrete stores, and the theorems applied to them.
mod Data
mod Stores
mod Backups
mod Messages
mod Restores
mod Services
mod Engine
mod Exchange
mod FormatService
