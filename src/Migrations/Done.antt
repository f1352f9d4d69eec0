-- ===== src/Migrations/Done.antt =====
-- What services/rag-service/src/migration/main.py has done where it exits with 0.
use rag_poc.Prelude.{ℕ, ◌<◌, Text, ◌≡◌, ◌⊎◌, true, false, none, some, ok}
use rag_poc.Failure.{Failure}
use rag_poc.Config.{Config}
use rag_poc.Migrations.Table.{HasTable}
use rag_poc.Migrations.{Environment, cosine, unnamed, create_tables, create_collection}

module _ (env : Environment) where
  open env.sqlite use {World}

  -- The collection with this name was there with vectors of the size, one for each point and with
  -- the cosine as distance, or it was created so.
  abbrev pub HasCollection : Text → ℕ → World → Type 0
  HasCollection name dim w =
      let (exists, w') = env.collection_exists name w in
      ((exists ≡ ok true) × ((env.collection_vectors name w').0 ≡ ok (unnamed dim false cosine)))
      ⊎ ((exists ≡ ok false) × ((env.create_collection name dim cosine w').0 ≡ ok tt))

  -- The index was there as a keyword index, or it was created.
  abbrev pub HasIndex : Text → World → Type 0
  HasIndex name w =
      let (existing, w') = env.index_is_keyword name w in
      (existing ≡ ok (some true))
      ⊎ ((existing ≡ ok none) × ((env.create_keyword_index name w').0 ≡ ok tt))

  -- What the migrations have done from this world.
  pub record IsMigrated (config : Config) (w : World) : Type 0 where
    pub table : HasTable env w
    pub has_dimension : 0 < config.rag.embedding_dim
    pub collection :
        HasCollection config.rag.collection config.rag.embedding_dim (create_tables env w).1
    pub index :
        HasIndex config.rag.collection (create_collection env config (create_tables env w).1).1
