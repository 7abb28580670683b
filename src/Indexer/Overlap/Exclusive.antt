-- ===== src/Indexer/Overlap/Exclusive.antt =====
-- When calls of `runIndexing` (internal/indexer/indexer.go) that overlap do not disturb one another.
use ade_ctld.Indexer.Overlap.{Indexer}
