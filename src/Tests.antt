-- ===== src/Tests.antt =====
-- Runs of the models at concrete inputs, and the theorems applied to them.
mod Runs
mod SystemExamples
mod WorldRuns
mod WorldExamples
mod PartExamples
mod UtilExamples
mod StealExamples
mod MainExamples
mod FaabricExamples
mod SchedulerExamples
mod ExecutorExamples
mod StorageExamples
