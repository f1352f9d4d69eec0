-- ===== src/Migrations.antt =====
-- services/rag-service/src/migration: main.py and the three migrations. SQLite and Qdrant are
-- parameters. Log lines are left out.
pub mod Table
pub mod Done
mod Tests
use rag_poc.Prelude.{
  ℕ, Text, str, Bool, true, false, not, ◌&&◌, Option, none, some, List, [], ◌∷◌, all, mem_text,
  ◌==◌, if◌then◌else◌, Result, ok, err,
}
use rag_poc.Value.{Fields}
use rag_poc.Failure.{Failure, other_error}
use rag_poc.Exec.{Exec, pure, raise, catch, ◌>>=◌, ◌>>◌}
use rag_poc.Config.{Config}
use rag_poc.Config.Build.{Unread, LoadError, config_error, raised, load}
use rag_poc.Registry.{Sqlite, with_manager}
use rag_poc.Startup.{Exit, exits, dies}

pub data Distance : Type 0 where
  cosine other_distance : Distance

-- The vectors of a collection: unnamed ones of a size, or named or sparse ones.
pub data Vectors : Type 0 where
  unnamed : (size : ℕ) → (is_multi : Bool) → Distance → Vectors
  named : Vectors

-- The calls on the world of the database: of the table, of the collection with its name, and of its
-- index on the field hash, whose type is none where there is no index, else whether it is keyword.
pub record Environment : Type 1 where
  pub sqlite : Sqlite
  pub document : Result Unread Fields
  pub table_columns : Exec sqlite.World (List Text)
  pub create_table : Exec sqlite.World (Unit {0})
  pub collection_exists : Text → Exec sqlite.World Bool
  pub collection_vectors : Text → Exec sqlite.World Vectors
  pub create_collection : Text → ℕ → Distance → Exec sqlite.World (Unit {0})
  pub index_is_keyword : Text → Exec sqlite.World (Option Bool)
  pub create_keyword_index : Text → Exec sqlite.World (Unit {0})
  pub close_client : Exec sqlite.World (Unit {0})

-- _COLUMNS
abbrev pub columns : List Text
columns =
    str "hash" ∷ str "filename" ∷ str "object_path" ∷ str "chunk_count" ∷ str "indexed_at" ∷ []

-- existing and existing != _COLUMNS, on sets
unfoldable pub is_old_schema : List Text → Bool
is_old_schema [] = false
is_old_schema (c ∷ cs) =
    not (all (λ d. mem_text d columns) (c ∷ cs) && all (λ d. mem_text d (c ∷ cs)) columns)

abbrev pub runtime_error : Failure
runtime_error = other_error (str "RuntimeError")

module _ (env : Environment) where
  open env.sqlite use {World}

  -- _indexed_documents_table
  unfoldable pub indexed_documents_table : Exec World (Unit {0})
  indexed_documents_table = do
    existing ← env.table_columns
    if is_old_schema existing then raise runtime_error else env.create_table

  -- CreateSqLiteTables.run
  unfoldable pub create_tables : Exec World (Unit {0})
  unfolding indexed_documents_table
  create_tables = with_manager env.sqlite indexed_documents_table

  -- _check_existing
  unfoldable pub check_existing : ℕ → Vectors → Exec World (Unit {0})
  check_existing dim named = raise runtime_error
  check_existing dim (unnamed size is_multi cosine) =
      if not (size == dim)
      then raise runtime_error
      else if is_multi
      then raise runtime_error
      else pure tt
  check_existing dim (unnamed size is_multi other_distance) = raise runtime_error

  -- QdrantCollection.run
  unfoldable pub create_collection : Config → Exec World (Unit {0})
  unfolding check_existing
  create_collection config = if config.rag.embedding_dim == 0 then raise runtime_error else (do
    exists ← env.collection_exists config.rag.collection
    if exists
        then (do
          vectors ← env.collection_vectors config.rag.collection
          check_existing config.rag.embedding_dim vectors)
        else env.create_collection config.rag.collection config.rag.embedding_dim cosine)

  -- what QdrantPayloadIndex.run does with the index that there is
  unfoldable pub with_index : Text → Option Bool → Exec World (Unit {0})
  with_index name none = env.create_keyword_index name
  with_index name (some true) = pure tt
  with_index name (some false) = raise runtime_error

  -- QdrantPayloadIndex.run
  unfoldable pub create_index : Config → Exec World (Unit {0})
  unfolding with_index
  create_index config = do
    existing ← env.index_is_keyword config.rag.collection
    with_index config.rag.collection existing

  -- MIGRATIONS, in order
  unfoldable pub migrate : Config → Exec World (Unit {0})
  unfolding create_tables create_collection create_index
  migrate config = do create_tables; create_collection config; create_index config

  -- _close_client
  unfoldable pub close_client : Exec World (Unit {0})
  close_client = catch env.close_client (λ e. pure tt)

  abbrev pub code_of : {A : Type 0} → Result Failure A → ℕ
  code_of (ok a) = 0
  code_of (err e) = 1

  abbrev pub with_config : Result LoadError Config → World → Exit × World
  with_config (err (config_error e)) w = (exits 1, w)
  with_config (err (raised e)) w = (dies e, w)
  with_config (ok config) w =
      let (r, w') = migrate config w in (exits (code_of r), (close_client w').1)

  -- main
  unfoldable pub main : World → Exit × World
  unfolding migrate close_client
  main w = with_config (load env.document) w
