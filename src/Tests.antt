-- ===== src/Tests.antt =====
-- Concrete runs of the definitions, and the theorems at concrete inputs.
pub mod Fixture
mod Sessions
mod Races
mod Flaky
mod Lasting
mod Decimal
mod Database
mod Parts
mod Release
mod Workflows
mod Matrix
mod Vectors
mod Links
mod Packages
mod Licences
