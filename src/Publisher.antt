-- ===== src/Publisher.antt =====
-- services/rag-service/src/rag/transport/status_publisher.py and StatusEvent.to_entry of
-- transport/status_event.py. `dumps` is json.dumps, `xadd` the client's XADD with approximate
-- trimming.
use rag_poc.Prelude.{ℕ, Text, str, List, [], ◌∷◌, text_eq, ltb, if◌then◌else◌, Result, ok, err}
use rag_poc.Value.{Value}
use rag_poc.Failure.{Failure, other_error}
use rag_poc.Exec.{Exec}
use rag_poc.Event.Outbound.{StatusEvent, to_dict}

pub record Publisher : Type 0 where
  pub stream : Text
  pub maxlen : ℕ

-- StatusPublisher(redis, stream, maxlen)
unfoldable pub make_publisher : Text → ℕ → Result Failure Publisher
make_publisher stream maxlen =
    if text_eq stream []
    then err (other_error (str "ValueError"))
    else if ltb maxlen 1
    then err (other_error (str "ValueError"))
    else ok (record { stream = stream; maxlen = maxlen })

-- What the standard library and the client do.
pub record Wire (W : Type 0) : Type 0 where
  pub format_timestamp : ℕ → Text
  pub dumps : List (Text × Value) → Text
  pub xadd : Text → List (Text × Text) → ℕ → Exec W Text

module _ {W : Type 0} (wire : Wire W) where
  -- StatusEvent.to_entry
  unfoldable pub to_entry : StatusEvent → List (Text × Text)
  to_entry event =
      (str "event_type", str "IngestionStatus")
      ∷ (str "payload", wire.dumps (to_dict wire.format_timestamp event))
      ∷ []

  -- StatusPublisher.publish
  unfoldable pub publish : Publisher → StatusEvent → Exec W Text
  unfolding to_entry
  publish p event = wire.xadd p.stream (to_entry event) p.maxlen
