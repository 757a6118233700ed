-- ===== src/Tests.antt =====
-- Runs of the models on small inputs, and each theorem at an input that meets its hypotheses.
mod CacheRuns
mod MapRuns
mod LockRuns
mod ParseRuns
mod StemRuns
mod TextRuns
mod TreeRuns
mod GrammarRuns
