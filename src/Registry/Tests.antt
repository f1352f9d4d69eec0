-- ===== src/Registry/Tests.antt =====
-- The registry of services/rag-service/src/rag/adapters/sqlite_index_registry.py over a database that
-- never fails.
use rag_poc.Prelude.{refl, str, List, [], ◌∷◌, length, ok}
use rag_poc.Value.{naive, utc}
use rag_poc.Ingest.{IndexedDocument}
use rag_poc.Registry.{Row, Sqlite}
use rag_poc.Registry.Contract.{IsTransactional, has_hash, put}
use rag_poc.Registry.Refinement.{Operation, exists, register, count, Follows, refines}

-- The committed rows, and those that the connection sees.
abbrev pub World : Type 0
World = List Row × List Row

abbrev pub memory : Sqlite
memory = record {
  World = World;
  mkdir = λ w. (ok tt, w);
  connect = λ w. (ok tt, (w.0, w.0));
  journal_mode = λ w. (ok tt, w);
  busy_timeout = λ w. (ok tt, w);
  commit = λ w. (ok tt, (w.1, w.1));
  rollback = λ w. (ok tt, (w.0, w.0));
  close = λ w. (ok tt, w);
  select_hash = λ hash w. (ok (has_hash hash w.1), w);
  insert_or_nothing = λ row w. (ok tt, (w.0, put row w.1));
  select_count = λ w. (ok (length w.1), w);
  delete_all = λ w. (ok tt, (w.0, []));
  isoformat = λ t. str "now";
}

memory-IsTransactional : IsTransactional memory (λ w. w.0) (λ w. w.1)
memory-IsTransactional = record {
  mkdir = λ w. refl;
  connect = λ w. refl;
  connected = λ w u h. refl;
  journal_mode = record { kept = λ w. refl; answered = λ w a h. refl; changed = λ w a h. refl };
  busy_timeout = record { kept = λ w. refl; answered = λ w a h. refl; changed = λ w a h. refl };
  committed = λ w u h. refl;
  not_committed = λ w e h. absurd (cc h);
  rollback = λ w. refl;
  close = λ w. refl;
  select_hash =
      λ hash. record { kept = λ w. refl; answered = λ w a h. cc h; changed = λ w a h. refl };
  insert_or_nothing =
      λ row. record { kept = λ w. refl; answered = λ w a h. refl; changed = λ w a h. refl };
  select_count = record { kept = λ w. refl; answered = λ w a h. cc h; changed = λ w a h. refl };
  delete_all = record { kept = λ w. refl; answered = λ w a h. refl; changed = λ w a h. refl };
}

abbrev sample_document : IndexedDocument
sample_document = record {
  hash = str "h";
  filename = str "a";
  object_path = str "p";
  chunk_count = 2;
  indexed_at = 0;
}

abbrev pub new_world : World
new_world = ([], [])

abbrev operations : List Operation
operations =
    register sample_document naive
    ∷ register sample_document (utc 0)
    ∷ register sample_document (utc 1)
    ∷ exists (str "h")
    ∷ count
    ∷ []

refines_example : Follows memory (λ w. w.0) (λ w. w.1) memory-IsTransactional operations new_world
refines_example =
    refines memory (λ w. w.0) (λ w. w.1) memory-IsTransactional operations new_world tt
