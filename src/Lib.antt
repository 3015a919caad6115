-- ===== src/Lib.antt =====
-- GaOTTT keeps long-term memories for language models. Each memory is a node with a dynamic
-- state; nodes that are recalled together grow undirected edges, and typed directed edges relate
-- them. A process holds the state in a write-behind cache over SQLite, beside a FAISS index of
-- vectors and a BM25 index of terms. A lease on the data directory keeps one process the owner,
-- and a registry hands universes, each a data directory with a backend, their ports and API keys.
--
-- The files, with the code that each is about:
-- - Prefetch: gaottt/core/prefetch.py. `PrefetchCache` (get, put, invalidate, stats) is a list of
--   entries in order of use, and `PrefetchPool` an event relation over schedules, starts, ends
--   and cancellations. Times are ticks.
-- - Lease: gaottt/store/lease.py, `OwnerLease`. acquire, its exclusive creation and its path for
--   an existing lock, the heartbeat, release. Lease.World interleaves the critical sections of
--   all processes; Lease.Creators and Lease.Owners are about its runs.
-- - Node: the `NodeState` of gaottt/core/types.py, and the float operations that the code uses as
--   a record of functions.
-- - Graph and Links: the `graph_cache`, `directed_out` and `directed_in` of
--   gaottt/store/cache.py.
-- - Cache: `CacheLayer` of gaottt/store/cache.py. Cache.Edges is about edges and their
--   timestamps, Cache.Degrees about the remembered degrees, Cache.Flush about flush_to_store,
--   Cache.Load about load_from_store.
-- - Store: gaottt/store/sqlite_store.py, the tables nodes, edges and directed_edges as
--   dictionaries from their primary keys.
-- - Cooccurrence: gaottt/graph/cooccurrence.py.
-- - Registry: gaottt/multiverse/registry.py.
-- - Bm25: gaottt/index/bm25_index.py, without the scores; Bm25.Rebuild is its rebuild.
-- - Faiss: gaottt/index/faiss_index.py, with FAISS as an argument, and the save as four steps
--   that a crash can cut short.
-- - Manifest: gaottt/store/manifest.py.
-- - Supervisor: gaottt/multiverse/supervisor.py. Supervisor.Stop, Ensure and Recycle are the
--   handling of a universe's backend, Endpoints the routes that delete a universe and that give
--   its URL and token, Creation the one that makes a universe, over the Registry; Embedder is the
--   service that is started on demand, with its idle watchdog.
-- - Clustering: gaottt/core/clustering.py, the union-find of `cluster_by_similarity`. Diversity:
--   gaottt/core/diversity.py, `mmr_select`. Segmentation: gaottt/core/segmentation.py, the split
--   of a query.
-- - Build: gaottt/core/engine.py, the background build of the BM25 indexes with its journal, over
--   Bm25.
-- - Ingest: gaottt/ingest/loader.py. `chunk_text` and `hard_split` are the splitting into chunks;
--   Ingest.ActivePath, Ingest.Messages and Ingest.Turns take an exported OpenAI conversation from
--   its tree to documents, whose exchanges Ingest.Turns.Grouping describes. A text is the list of
--   its code points. hard_split has fuel for one round more than the text has characters, which
--   is enough because each round cuts at least one off; the walk has fuel for each node of the
--   mapping and two more, which is enough because it stops at an id that it has seen.
-- - Importer: gaottt/multiverse/importer.py, `execute_import` over the Registry. Files are
--   dictionaries from names to contents; an `Attempt` is what one pass of the loop meets of the
--   system and of other processes.
-- - Lifecycle: gaottt/core/engine.py, archive, restore, forget, relate and unrelate, over Cache,
--   Store, Build and Prefetch.
-- - Base and Dict: the shared names, and Python's dictionaries and sets in insertion order with
--   the laws of their operations. Tests: concrete inputs.
--
-- How they fit together: CooccurrenceGraph changes the edges of the CacheLayer, whose rows and
-- links are Graph and Links; the flush of the cache calls the statements of Store, and its load
-- reads them. The endpoints of the Supervisor look keys and universes up in the Registry and,
-- before they route a call or create a universe, have the Embedder brought up; the watchdog of
-- the Embedder reads the Registry too.
--
-- Ids are a type with decided equality, and an order where the code takes `min` and `max` of two
-- ids. Float weights and vectors are types, and what the code computes with weights is the record
-- `Floats`: no law of float arithmetic is assumed, but for the comparison of scores in Diversity,
-- which a theorem there takes as a strict order. Clocks, random keys, SHA-256, the bind test of a
-- port, the tokenizer, FAISS, and what processes and ports answer to the supervisor are arguments
-- of the definitions that use them. The loops of the code run over a list or a range, so that
-- their models are structural recursion, but for the two loops of the union-find, which take
-- fuel: a node is never deeper than the number of unions, so that one more than the number of
-- pairs is enough. Numbers are natural numbers; where the code subtracts, the invariants say that
-- nothing goes below zero.
--
-- Not modelled: the physics and ranking of recall (the rest of gaottt/core/engine.py, gravity.py,
-- scorer.py and most of their helpers), which is float arithmetic over vectors; the merging of
-- nodes and the compaction; the servers, services, embedders and scripts, which call these
-- components; the file formats of the loader other than the OpenAI export; the route of the
-- supervisor that clones a universe, and its telemetry; the snapshot file of the BM25 indexes and
-- the cancellation of their build; failures of the file system other than the ones named; the
-- documents table with its JSON; the write-behind task, the heartbeat's timer and the locks,
-- whose critical sections are single steps here.
pub mod Base
pub mod Dict
pub mod Prefetch
pub mod Lease
pub mod Graph
pub mod Links
pub mod Node
pub mod Cache
pub mod Store
pub mod Cooccurrence
pub mod Registry
pub mod Bm25
pub mod Faiss
pub mod Manifest
pub mod Supervisor
pub mod Clustering
pub mod Diversity
pub mod Build
pub mod Segmentation
pub mod Ingest
pub mod Importer
pub mod Lifecycle
mod Tests
