-- ===== src/Tests/FaissTests.antt =====
-- gaottt/index/faiss_index.py with the rows of the index as a list of numbers,
-- gaottt/store/manifest.py on a new directory, and the load of gaottt/store/cache.py.
use Prim.Native.String.{String}
use ga_ottt.Base.{
  ℕ, inl, inr, ◌≡◌, ◌↔◌, ◌⊎◌, refl, Bool, true, false, none, some, List, [], ◌∷◌, ◌++◌, ℕ_discrete,
  length, length-append,
}
use ga_ottt.Dict.{lookup}
use ga_ottt.Faiss.{Engine, FaissIndex, fresh, add, load, save_steps}
use ga_ottt.Faiss.Crash.{Progress, load-save_steps, recovered, on_disk, steps_of}
use ga_ottt.Manifest.{
  UniverseManifest, Config, Embedder, DataDir, ok, load_manifest, write_manifest, ensure_manifest,
  verify_embedder_identity,
}
use ga_ottt.Manifest.Guards.{passes, passes-verify_embedder_identity}
use ga_ottt.Node.{NodeState}
use ga_ottt.Graph.{weight}
use ga_ottt.Cache.Edges.{IsSound}
use ga_ottt.Cache.Load.{Metadata, load_from_store}
use ga_ottt.Cache.Load.Directed.{Spared}
use ga_ottt.Cache.Load.Archived.{load_from_store_lem, IsArchived, HoldsActive, KeepsEdges}
use ga_ottt.Store.{Store}
use ga_ottt.Tests.Fixtures.{order, pairs, node, no_nodes, no_rows, same_text}

abbrev rows : Engine (List ℕ) ℕ ℕ
rows = record {
  new = [];
  ntotal = length;
  extend = ◌++◌;
  query = λ x v k. [];
  ntotal_new = refl;
  ntotal_extend = λ x vs. length-append x vs;
}

abbrev one : FaissIndex (List ℕ) ℕ
one = record { index = 5 ∷ []; id_map = 1 ∷ [] }

abbrev two : FaissIndex (List ℕ) ℕ
two = record { index = 5 ∷ 6 ∷ []; id_map = 1 ∷ 2 ∷ [] }

added : add rows one (6 ∷ []) (2 ∷ []) ≡ some two
unfolding add
added = refl

abbrev strip : ℕ → ℕ
strip k = k

abbrev is_empty : ℕ → Bool
is_empty k = false

load-save_steps_example :
    load rows strip is_empty
      (fresh rows)
      (save_steps two (steps_of Progress.index_replaced) (on_disk rows strip is_empty one))
    ≡ recovered rows strip is_empty one two Progress.index_replaced
load-save_steps_example =
    load-save_steps rows strip is_empty one two Progress.index_replaced refl refl ((refl, refl), tt)
      ((refl, refl), ((refl, refl), tt))

abbrev config : Config
config = record { model_name = "ruri"; embedding_dim = 768; manifest_check_enabled = true }

abbrev embedder : Embedder
embedder = record { dimension = 768; embedder_id = "ruri"; embedder_version = "v3" }

abbrev manifest : UniverseManifest
manifest = record {
  schema_version = 1;
  universe_id = "default";
  embedder_id = "ruri";
  embedder_version = "unpinned";
  embedding_dim = 768;
  created_at = 7;
  managed = false;
}

abbrev new_dir : DataDir
new_dir = record { exists = false; manifest = none; tmp = none }

passes-verify_embedder_identity_example :
    (passes (verify_embedder_identity same_text manifest embedder config) ≡ true) ↔ (
      (embedder.dimension ≡ config.embedding_dim)
      × ((config.manifest_check_enabled ≡ false)
          ⊎ ((manifest.embedding_dim ≡ config.embedding_dim)
              × (manifest.embedder_id ≡ embedder.embedder_id))))
passes-verify_embedder_identity_example =
    passes-verify_embedder_identity same_text manifest embedder config

made : (ensure_manifest new_dir config 7 true).1 ≡ ok manifest
unfolding ensure_manifest load_manifest write_manifest
made = refl

abbrev archived : NodeState ℕ ℕ
archived = record (node 2 0) { is_archived = true }

abbrev stored : Store ℕ ℕ ℕ String
stored = record no_rows {
  nodes =
      (1, record { state = node 1 0; displacement = none; velocity = none })
      ∷ (2, record { state = archived; displacement = none; velocity = none })
      ∷ [];
  edges = ((1, 2), (5, 9)) ∷ [];
  directed_edges =
      ((1, 2, "supports"), record { weight = 3; created_at = 1; metadata = none }) ∷ [];
}

abbrev no_metadata : Metadata ℕ
no_metadata = record { sources = []; tags = []; originals = []; cohorts = [] }

no_nodes-IsSound : IsSound order pairs no_nodes
unfolding weight lookup
no_nodes-IsSound = record { symmetric = λ a b. refl; timed = λ a b. refl }

none_archived :
    (j : ℕ) (t : NodeState ℕ ℕ)
    → lookup ℕ_discrete j no_nodes.node_cache ≡ some t
    → t.is_archived ≡ false
unfolding lookup
none_archived j t e = absurd cc

node_two-IsArchived : IsArchived ℕ_discrete stored.nodes 2
node_two-IsArchived = inr (inl (refl, refl))

load_from_store_lem_example :
    IsSound order pairs (load_from_store order pairs no_nodes stored no_metadata)
    × HoldsActive order (load_from_store order pairs no_nodes stored no_metadata)
    × KeepsEdges order no_nodes (load_from_store order pairs no_nodes stored no_metadata) 2
    × Spared ℕ_discrete (load_from_store order pairs no_nodes stored no_metadata).directed.out 2
    × Spared ℕ_discrete (load_from_store order pairs no_nodes stored no_metadata).directed.into 2
load_from_store_lem_example =
    load_from_store_lem order pairs no_nodes stored no_metadata 2 no_nodes-IsSound none_archived
      node_two-IsArchived
