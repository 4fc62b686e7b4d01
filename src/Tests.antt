-- ===== src/Tests.antt =====
-- Test data, and the theorems at concrete inputs.
mod Data
mod StoreRuns
mod AccessRuns
mod SchemaRuns
mod HandlerRuns
mod IdentityRuns
mod CliRuns
mod AdminRuns
mod BackupRuns
mod CommandRuns
mod ProjectionRuns
mod ToolRuns
mod GatewayRuns
mod ConfigRuns
