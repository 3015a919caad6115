-- ===== src/Tests.antt =====
-- Concrete inputs: the theorems applied to them, and runs of the definitions.
mod SupervisorTests
mod SegmentationTests
mod BuildTests
mod SelectionTests
mod EmbedderTests
mod PrefetchTests
mod LeaseTests
mod Fixtures
mod CacheTests
mod RegistryTests
mod StoreTests
mod Bm25Tests
mod FaissTests
mod IngestTests
mod ImportTests
mod LifecycleTests
