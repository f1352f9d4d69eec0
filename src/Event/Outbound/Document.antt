-- ===== src/Event/Outbound/Document.antt =====
-- StatusEvent.to_dict of services/rag-service/src/rag/transport/status_event.py.
use mathlib.Core.Option
use rag_poc.Prelude.{
  ℕ, Text, str, ◌≡◌, refl, Option, none, some, List, arith, text_eq, if◌then◌else◌,
}
use rag_poc.Value.{Value, bool, int, text, pos}
use rag_poc.Event.{status_value, reason_value, schema_version}
use rag_poc.Event.Outbound.{StatusEvent, to_dict, get, add_optional}

get-add_optional :
    {A : Type 0} (name k : Text) (f : A → Value) (o : Option A) (rest : List (Text × Value))
    → get name (add_optional k f o rest) ≡ (
        if text_eq k name
        then Option.get_or (Option.map (λ a. some (f a)) o) (get name rest)
        else get name rest)
unfolding get
get-add_optional name k f none rest = ground arith
get-add_optional name k f (some a) rest = ground arith

-- What a reader of the document finds under each name.
pub record Carries (format_timestamp : ℕ → Text) (s : StatusEvent) (find : Text → Option Value)
    : Type 0 where
  pub id : find (str "id") ≡ some (text s.id)
  pub hash : find (str "hash") ≡ some (text s.hash)
  pub status : find (str "status") ≡ some (text (status_value s.status))
  pub attempts : find (str "attempts") ≡ some (int (pos s.attempts))
  pub retryable : find (str "retryable") ≡ Option.map bool s.retryable
  pub reason : find (str "reason") ≡ Option.map (λ r. text (reason_value r)) s.reason
  pub detail : find (str "detail") ≡ Option.map text s.detail
  pub chunk_count : find (str "chunk_count") ≡ Option.map (λ n. int (pos n)) s.chunk_count
  pub created_at : find (str "created_at") ≡ some (text (format_timestamp s.created_at))
  pub schema_version : find (str "schema_version") ≡ some (int (pos schema_version))

-- The document of an event has every field of the event under its name; an absent optional field
-- has no entry (so no entry is null), and the schema version is 1.
pub to_dict-Carries :
    (format_timestamp : ℕ → Text) (s : StatusEvent)
    → Carries format_timestamp s (λ name. get name (to_dict format_timestamp s))
unfolding to_dict get text_eq
to_dict-Carries format_timestamp s = record {
  id = refl;
  hash = refl;
  status = refl;
  attempts = refl;
  retryable = simp get-add_optional (ground arith);
  reason = simp get-add_optional (ground arith);
  detail = simp get-add_optional (ground arith);
  chunk_count = simp get-add_optional (ground arith);
  created_at = simp get-add_optional (ground arith);
  schema_version = simp get-add_optional (ground arith);
}
