-- ===== src/Services.antt =====
-- backend/internal/service: the services that are modelled.
pub mod TokenRefresh
pub mod CleanupWorker
pub mod Delimited
pub mod DelimitedInput
pub mod Formats
pub mod ImportPreview
pub mod Export
pub mod ExportValues
pub mod FormatBuild
pub mod FormatService
