-- ===== src/Event/Tests.antt =====
-- The statements about the events of services/rag-service/src/rag/transport/status_event.py at
-- concrete inputs.
use rag_poc.Prelude.{ℕ, Text, str, ◌≡◌, refl, true, Option, none, some, text_eq, ok}
use rag_poc.Value.{
  Value, null, int, bool, text, moment, object, Fields, field, end, lookup, pos, utc, Moment,
}
use rag_poc.Event.{Status, Reason}
use rag_poc.Event.Inbound.{IngestEvent, parse, created_at_matches}
use rag_poc.Event.Inbound.Laws.{Describes, parse_exact}
use rag_poc.Event.Outbound.{Arguments, Identity, clip, StatusEvent, construct, to_dict, get}
use rag_poc.Event.Outbound.Laws.{IsValid, construct-IsValid}
use rag_poc.Event.Outbound.Document.{Carries, to_dict-Carries}

abbrev fields : Fields
fields = field (str "schema_version") (int (pos 1)) (
    field (str "size") (int (pos 5)) (
      field (str "id") (text (str "i")) (
        field (str "hash") (text (str "h")) (
          field (str "filename") (text (str "a.txt")) (
            field (str "bucket_path") (text (str "p")) (
              field (str "attempts") (int (pos 2))
                (field (str "created_at") (text (str "2026-01-02T03:04:05.6Z")) end)))))))

abbrev sample : IngestEvent
sample = record {
  id = str "i";
  hash = str "h";
  filename = str "a.txt";
  bucket_path = str "p";
  size = 5;
  attempts = 2;
  created_at = utc 0;
  schema_version = 1;
}

abbrev load_sample : Value → Option Value
load_sample v = some (object fields)

abbrev sample_date : Text → Option Moment
sample_date t = some (utc 0)

sample-parsed : parse load_sample sample_date (text (str "{}")) ≡ ok sample
unfolding parse created_at_matches text_eq lookup
sample-parsed = refl

parse_exact_example :
    (document : Fields) × (load_sample (text (str "{}")) ≡ some (object document))
    × Describes sample_date document sample
parse_exact_example = (parse_exact load_sample sample_date (text (str "{}")) sample).0 sample-parsed

abbrev sample_arguments : Arguments
sample_arguments = record {
  hash = text (str "h");
  status = text (str "FAILED");
  attempts = int (pos 2);
  retryable = bool true;
  reason = text (str "INTERNAL");
  detail = text (str "boom");
  chunk_count = null;
  id = text (str "u");
  created_at = moment (utc 0);
}

abbrev failure : StatusEvent
failure = record {
  hash = str "h";
  status = Status.failed;
  attempts = 2;
  retryable = some true;
  reason = some Reason.internal;
  detail = some (str "boom");
  chunk_count = none;
  id = str "u";
  created_at = 0;
}

constructed : construct sample_arguments ≡ ok failure
unfolding construct text_eq clip
constructed = refl

construct-IsValid_example : IsValid failure
construct-IsValid_example = construct-IsValid sample_arguments failure constructed

abbrev identity : Identity
identity = record { id = str "u"; now = 0 }

abbrev stamp : ℕ → Text
stamp t = str "t"

to_dict-Carries_example : Carries stamp failure (λ name. get name (to_dict stamp failure))
to_dict-Carries_example = to_dict-Carries stamp failure
