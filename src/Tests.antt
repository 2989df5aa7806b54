-- ===== src/Tests.antt =====
-- Runs of the model on small inputs, and the theorems at inputs that meet their conditions.
mod ServerRuns
mod ClientRuns
mod CacheRuns
mod ChunkRuns
mod UtilRuns
mod FileRuns
mod WriteRuns
mod ExclusionRuns
mod ReadRuns
mod ReadBackRuns
mod StartRuns
mod XmpRuns
mod ChatRuns
