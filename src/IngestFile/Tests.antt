-- ===== src/IngestFile/Tests.antt =====
-- The tool services/rag-service/src/rag/tools/ingest_file.py with scripted clients.
use rag_poc.Prelude.{
  ℕ, ◌+◌, ◌≡◌, refl, inl, Text, str, text_eq, none, some, List, [], ◌∷◌, In, ok, subst,
}
use rag_poc.Value.{object, Fields, lookup, utc}
use rag_poc.Exec.{pure, modify, ◌>>=◌}
use rag_poc.Event.Inbound.{parse, created_at_matches, encodes}
use rag_poc.IngestFile.{
  Environment, stored, added, document, entry_of, call, last_status_id, note, publish, run,
}
use rag_poc.IngestFile.Accepted.{IsAccepted, LoadsBack, document_at, run-IsAccepted}

abbrev content : List ℕ
content = 1 ∷ 2 ∷ []

abbrev stamp : Text
stamp = str "2026-01-02T03:04:05Z"

abbrev sample_document : Fields
sample_document = document (str "i") (str "abcd") (str "a.txt") content stamp

abbrev environment : Environment
environment = record {
  World = ℕ;
  content = some content;
  filename = str "a.txt";
  sha256 = λ c. str "abcd";
  uuid = λ w. (str "i", w);
  now = λ w. (stamp, w);
  clock = λ w. (w, w + 1);
  dumps = λ d. str "{}";
  loads = λ v. some (object sample_document);
  from_iso = λ t. some (utc 0);
  put_object = λ key c w. (stored, w);
  newest_status = λ w. (ok [], w);
  xadd = λ fields w. (ok tt, w);
  xread = λ last w. (ok [], w);
}

sample_added : In (added (entry_of (str "{}"))) (run environment 3 none 0).1.log
unfolding run parse created_at_matches encodes text_eq lookup publish last_status_id note call pure
    modify ◌>>=◌
sample_added = inl refl

loads_back :
    (c : List ℕ) → some content ≡ some c → LoadsBack environment (document_at environment 0 c)
loads_back c e =
    let same : content ≡ c = cc e in
    subst (λ c. LoadsBack environment (document_at environment 0 c)) same refl

run-IsAccepted_example :
    (c : List ℕ) × (some content ≡ some c)
    × IsAccepted environment c (entry_of (str "{}")) (run environment 3 none 0).1.log
run-IsAccepted_example =
    run-IsAccepted environment 3 none 0 (entry_of (str "{}")) loads_back sample_added
