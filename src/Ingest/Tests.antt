-- ===== src/Ingest/Tests.antt =====
-- The ingest pipeline of services/rag-service/src/rag/ingest/service.py with scripted ports.
use rag_poc.Prelude.{ℕ, str, ◌≡◌, refl, Bool, false, List, [], ◌∷◌, map, ok}
use rag_poc.Value.{utc}
use rag_poc.Event.Inbound.{IngestEvent}
use rag_poc.Exec.Triple.{Ends}
use rag_poc.Deadline.{Deadline}
use rag_poc.Ingest.{Ports, IngestSettings, Point, make_points, process}
use rag_poc.Ingest.Points.{IsMadeOf, make_points_lem}
use rag_poc.Ingest.Order.{Progress, Finished, process_order}
use rag_poc.Ingest.Early.{StopsFor, process_early}

-- The world counts the calls of the clock; every document is new, and splits into two chunks.
abbrev sample_ports : Bool → Ports
sample_ports known = record {
  World = ℕ;
  Vector = ℕ;
  Parser = Unit {0};
  clock = λ w. (w, w);
  now = λ w. (w, w);
  exists = λ hash w. (ok known, w);
  register = λ doc w. (ok tt, w);
  get = λ key limit w. (ok [], w);
  parser_for = λ filename w. (ok tt, w);
  parse = λ parser content w. (ok (str "one two"), w);
  lower = λ t. t;
  split_text = λ markdown size overlap t w. (ok (str "one" ∷ str "two" ∷ []), w);
  embed_documents = λ ts w. (ok (map (λ t. 0) ts), w);
  delete_by_hash = λ hash w. (ok tt, w);
  upsert = λ points w. (ok tt, w);
}

abbrev sample_settings : IngestSettings
sample_settings = record {
  chunk_size = 10;
  chunk_overlap = 2;
  embed_batch_size = 1;
  max_file_bytes = 100;
}

-- The event's file is too large for these.
abbrev small_settings : IngestSettings
small_settings = record sample_settings { max_file_bytes = 3 }

abbrev sample_event : IngestEvent
sample_event = record {
  id = str "i";
  hash = str "h";
  filename = str "a.txt";
  bucket_path = str "p";
  size = 5;
  attempts = 2;
  created_at = utc 0;
  schema_version = 1;
}

abbrev soon : Deadline
soon = record { expires_at = 10 }

process_order_example :
    let r =
      process
        (sample_ports false)
        sample_settings
        sample_event
        soon
        (record { world = 0; log = [] }) in
    Ends (λ t. Progress ℕ sample_event t.log) (λ o t. Finished ℕ sample_event o t.log) r.0 r.1
process_order_example = process_order (sample_ports false) sample_event sample_settings soon 0

process_early_example :
    StopsFor (sample_ports false) small_settings sample_event soon (ok false) 0 (
      process
        (sample_ports false)
        small_settings
        sample_event
        soon
        (record { world = 0; log = [] }))
process_early_example = process_early (sample_ports false) small_settings sample_event soon 0

abbrev two_points : List (Point ℕ)
two_points =
    record { hash = str "h"; filename = str "a.txt"; chunk_index = 0; text = str "one"; vector = 7 }
    ∷ record {
      hash = str "h";
      filename = str "a.txt";
      chunk_index = 1;
      text = str "two";
      vector = 8;
    }
    ∷ []

two_made :
    make_points (str "h") (str "a.txt") 0 (str "one" ∷ str "two" ∷ []) (7 ∷ 8 ∷ []) ≡ ok two_points
unfolding make_points
two_made = refl

make_points_lem_example :
    IsMadeOf (str "h") (str "a.txt") 0 (str "one" ∷ str "two" ∷ []) (7 ∷ 8 ∷ []) two_points
make_points_lem_example =
    make_points_lem (str "h") (str "a.txt") 0 (str "one" ∷ str "two" ∷ []) (7 ∷ 8 ∷ []) two_points
      two_made
