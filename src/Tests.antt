-- ===== src/Tests.antt =====
-- Concrete runs.
mod Base
mod WireExamples
mod DataExamples
mod ListExamples
mod ServeExamples
mod SessionExamples
mod IndexingExamples
mod DaemonExamples
mod ClientExamples
