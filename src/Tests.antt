-- ===== src/Tests.antt =====
-- Concrete inputs, tests, and the theorems at inputs that meet their hypotheses.
mod Samples
mod DomainTests
mod LedgerTests
mod EvidenceTests
mod RecoveryTests
mod ExportTests
mod PolicyTests
mod ExecutionTests
mod MeasurementTests
mod StartTests
mod ProcessTests
mod ArtifactTests
mod CatalogTests
mod HostTests
mod StatisticsTests
