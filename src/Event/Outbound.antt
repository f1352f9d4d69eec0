-- ===== src/Event/Outbound.antt =====
-- services/rag-service/src/rag/transport/status_event.py: StatusEvent, its checking constructor,
-- the two factories and the document it is sent as.
pub mod Laws
pub mod Factories
pub mod Document
use rag_poc.Prelude.{
  ℕ, Text, str, Bool, Option, none, some, List, [], ◌∷◌, text_eq, leb, take, length, if◌then◌else◌,
  Result, ok, err, ◌>>=◌, ◌>>◌,
}
use rag_poc.Value.{Value, null, bool, int, text, moment, pos, Moment, naive, unconvertible, utc}
use rag_poc.Event.{
  InvalidEvent, unknown_status, unknown_reason, bad_created_at, not_aware, not_utc, bad_retryable,
  bad_detail, bad_chunk_count, retryable_required, reason_required, Status, indexed, failed, Reason,
  status_of, reason_of, status_value, reason_value, in_range, or_fail, check_attempts,
  max_detail_length, schema_version,
}

-- The arguments of the constructor as the caller gives them. An enumeration member is its text
-- value (StrEnum), an absent optional argument is `null`.
pub record Arguments : Type 0 where
  pub hash : Value
  pub status : Value
  pub attempts : Value
  pub retryable : Value
  pub reason : Value
  pub detail : Value
  pub chunk_count : Value
  pub id : Value
  pub created_at : Value

-- A constructed event; `created_at` is in microseconds of UTC.
pub record StatusEvent : Type 0 where
  pub hash : Text
  pub status : Status
  pub attempts : ℕ
  pub retryable : Option Bool
  pub reason : Option Reason
  pub detail : Option Text
  pub chunk_count : Option ℕ
  pub id : Text
  pub created_at : ℕ

-- `isinstance(value, str) and value != ""`
check_nonempty : Text → Value → Result InvalidEvent Text
check_nonempty name (text t) = if text_eq t [] then err (InvalidEvent.empty_text name) else ok t
check_nonempty name _ = err (InvalidEvent.empty_text name)

-- _coerce(Status, …)
coerce_status : Value → Result InvalidEvent Status
unfolding status_of
coerce_status (text t) = or_fail (status_of t) unknown_status
coerce_status _ = err unknown_status

-- _coerce(Reason, …), skipped at None
coerce_reason : Value → Result InvalidEvent (Option Reason)
unfolding reason_of
coerce_reason null = ok none
coerce_reason (text t) = do r ← or_fail (reason_of t) unknown_reason; ok (some r)
coerce_reason _ = err unknown_reason

check_moment : Moment → Result InvalidEvent ℕ
check_moment naive = err not_aware
check_moment unconvertible = err not_utc
check_moment (utc t) = ok t

check_created_at : Value → Result InvalidEvent ℕ
unfolding check_moment
check_created_at (moment m) = check_moment m
check_created_at _ = err bad_created_at

check_retryable : Value → Result InvalidEvent (Option Bool)
check_retryable null = ok none
check_retryable (bool b) = ok (some b)
check_retryable _ = err bad_retryable

-- a text over the limit is cut
unfoldable pub clip : ℕ → Text → Text
clip limit t = if leb (length t) limit then t else take limit t

check_detail : Value → Result InvalidEvent (Option Text)
check_detail null = ok none
check_detail (text t) = ok (some (clip max_detail_length t))
check_detail _ = err bad_detail

check_chunk_count : Value → Result InvalidEvent (Option ℕ)
unfolding in_range
check_chunk_count null = ok none
check_chunk_count v = do n ← or_fail (in_range v) bad_chunk_count; ok (some n)

-- the last checks, on a failed event only
pub check_failed : Status → Option Bool → Option Reason → Result InvalidEvent (Unit {0})
check_failed indexed retryable reason = ok tt
check_failed failed none reason = err retryable_required
check_failed failed (some b) none = err reason_required
check_failed failed (some b) (some r) = ok tt

-- The first failing check, in the order in which the source makes them, is the error.
pub assemble :
    (hash : Result InvalidEvent Text) (status : Result InvalidEvent Status)
    (reason : Result InvalidEvent (Option Reason)) (attempts : Result InvalidEvent ℕ)
    (id : Result InvalidEvent Text) (created_at : Result InvalidEvent ℕ)
    (retryable : Result InvalidEvent (Option Bool)) (detail : Result InvalidEvent (Option Text))
    (chunk_count : Result InvalidEvent (Option ℕ))
    → Result InvalidEvent StatusEvent
unfolding check_failed
assemble hash status reason attempts id created_at retryable detail chunk_count = do
  hash ← hash
  status ← status
  reason ← reason
  attempts ← attempts
  id ← id
  created_at ← created_at
  retryable ← retryable
  detail ← detail
  chunk_count ← chunk_count
  check_failed status retryable reason
  ok (record {
    hash = hash;
    status = status;
    attempts = attempts;
    retryable = retryable;
    reason = reason;
    detail = detail;
    chunk_count = chunk_count;
    id = id;
    created_at = created_at;
  })

-- StatusEvent(...), that is __post_init__
unfoldable pub construct : Arguments → Result InvalidEvent StatusEvent
unfolding check_nonempty coerce_status coerce_reason check_attempts check_created_at check_retryable
    check_detail check_chunk_count assemble
construct a =
    assemble (check_nonempty (str "hash") a.hash) (coerce_status a.status) (coerce_reason a.reason)
      (check_attempts a.attempts) (check_nonempty (str "id") a.id) (check_created_at a.created_at)
      (check_retryable a.retryable) (check_detail a.detail) (check_chunk_count a.chunk_count)

-- A typed optional argument.
abbrev pub optional {ℓ} : {A : Type ℓ} → (A → Value) → Option A → Value
optional f none = null
optional f (some a) = f a

-- The identity fields that the defaults give: uuid4() and now(UTC).
pub record Identity : Type 0 where
  pub id : Text
  pub now : ℕ

-- StatusEvent.indexed with the default identity
unfoldable pub make_indexed : Text → ℕ → Option ℕ → Identity → Result InvalidEvent StatusEvent
unfolding construct
make_indexed hash attempts chunk_count identity = construct (record {
  hash = text hash;
  status = text (status_value indexed);
  attempts = int (pos attempts);
  retryable = null;
  reason = null;
  detail = null;
  chunk_count = optional (λ n. int (pos n)) chunk_count;
  id = text identity.id;
  created_at = moment (utc identity.now);
})

-- StatusEvent.failed with the default identity
unfoldable pub make_failed :
    Text → ℕ → Bool → Reason → Option Text → Identity → Result InvalidEvent StatusEvent
unfolding construct
make_failed hash attempts retryable reason detail identity = construct (record {
  hash = text hash;
  status = text (status_value failed);
  attempts = int (pos attempts);
  retryable = bool retryable;
  reason = text (reason_value reason);
  detail = optional text detail;
  chunk_count = null;
  id = text identity.id;
  created_at = moment (utc identity.now);
})

-- `document.get(name)` on the list of its items
unfoldable pub get : Text → List (Text × Value) → Option Value
get name [] = none
get name ((k, v) ∷ rest) = if text_eq k name then some v else get name rest

-- `if value is not None: document[name] = value`
abbrev add_optional {ℓ} :
    {A : Type ℓ} → Text → (A → Value) → Option A → List (Text × Value) → List (Text × Value)
add_optional name f none rest = rest
add_optional name f (some a) rest = (name, f a) ∷ rest

-- StatusEvent.to_dict, with `format_timestamp` as a parameter
unfoldable pub to_dict : (ℕ → Text) → StatusEvent → List (Text × Value)
to_dict format_timestamp s =
    (str "id", text s.id)
    ∷ (str "hash", text s.hash)
    ∷ (str "status", text (status_value s.status))
    ∷ (str "attempts", int (pos s.attempts))
    ∷ add_optional (str "retryable") bool s.retryable (
        add_optional (str "reason") (λ r. text (reason_value r)) s.reason
          (add_optional (str "detail") text s.detail (
            add_optional (str "chunk_count") (λ n. int (pos n)) s.chunk_count
              ((str "created_at", text (format_timestamp s.created_at))
                ∷ (str "schema_version", int (pos schema_version))
                ∷ []))))
