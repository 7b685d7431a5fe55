-- ===== src/Tests.antt =====
-- Concrete environments, runs of the model, and each theorem that has hypotheses at an input that
-- meets them.
pub mod Memory
mod CipherRuns
mod CommandRuns
mod FileRuns
mod GenerateRuns
mod ListingRuns
mod PathRuns
mod ReadRuns
mod ServeRuns
mod SfoRuns
mod SlotRuns
mod VisoRuns
mod VolumeRuns
