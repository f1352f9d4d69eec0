-- ===== src/Migrations/Tests.antt =====
-- The migrations of services/rag-service/src/migration on an empty database.
use rag_poc.Prelude.{none, false, [], ok}
use rag_poc.Config.{Config}
use rag_poc.Config.Tests.{document, ingestion_table}
use rag_poc.Registry.Tests.{memory}
use rag_poc.Migrations
use rag_poc.Migrations.{Environment, create_collection}

abbrev environment : Environment
environment = record {
  sqlite = memory;
  document = ok (document (ingestion_table 3));
  table_columns = λ w. (ok [], w);
  create_table = λ w. (ok tt, w);
  collection_exists = λ name w. (ok false, w);
  collection_vectors = λ name w. (ok Migrations.named, w);
  create_collection = λ name dim distance w. (ok tt, w);
  index_is_keyword = λ name w. (ok none, w);
  create_keyword_index = λ name w. (ok tt, w);
  close_client = λ w. (ok tt, w);
}
