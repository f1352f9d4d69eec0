-- ===== src/Event/Outbound/Factories.antt =====
-- The factories StatusEvent.indexed and StatusEvent.failed of
-- services/rag-service/src/rag/transport/status_event.py.
use rag_poc.Prelude.{
  ℕ, ◌≤◌, Text, str, ◌≡◌, ◌≢◌, refl, Bool, Option, none, some, [], arith, text_eq, text_eq_iff, ok,
}
use rag_poc.Value.{null, bool, int, text, moment, pos, utc}
use rag_poc.Event.{
  Status, indexed, failed, Reason, status_of, reason_of, status_value, reason_value, check_attempts,
  max_integer, max_detail_length,
}
use rag_poc.Event.Outbound.{
  StatusEvent, Identity, check_nonempty, clip, assemble, check_detail, check_chunk_count,
  check_failed, coerce_status, coerce_reason, check_created_at, check_retryable, make_indexed,
  make_failed, optional,
}
use rag_poc.Event.Outbound.Laws.{Fits, assemble-inv}

-- The text of a reason or a status names it again.
pub reason_of-reason_value : (r : Reason) → reason_of (reason_value r) ≡ some r
unfolding reason_of text_eq
reason_of-reason_value Reason.unsupported_type = refl
reason_of-reason_value _ = refl

status_of-status_value : (s : Status) → status_of (status_value s) ≡ some s
unfolding status_of text_eq
status_of-status_value indexed = refl
status_of-status_value failed = refl

check_nonempty-ok : (name t : Text) → t ≢ [] → check_nonempty name (text t) ≡ ok t
unfolding check_nonempty
check_nonempty-ok name t h = ground (arith, text_eq_iff t [])

check_attempts-ok : (n : ℕ) → n ≤ max_integer → check_attempts (int (pos n)) ≡ ok n
unfolding check_attempts
check_attempts-ok n h = ground arith

abbrev pub clip_option : Option Text → Option Text
clip_option none = none
clip_option (some t) = some (clip max_detail_length t)

check_detail-ok : (d : Option Text) → check_detail (optional text d) ≡ ok (clip_option d)
unfolding check_detail
check_detail-ok none = refl
check_detail-ok (some t) = refl

coerce_reason-ok : (r : Reason) → coerce_reason (text (reason_value r)) ≡ ok (some r)
unfolding coerce_reason
coerce_reason-ok r = rw reason_of-reason_value

check_chunk_count-ok :
    (c : Option ℕ)
    → Fits (λ n. n) max_integer c
    → check_chunk_count (optional (λ n. int (pos n)) c) ≡ ok c
unfolding check_chunk_count
check_chunk_count-ok none h = refl
check_chunk_count-ok (some n) h = ground arith

coerce_status-ok : (s : Status) → coerce_status (text (status_value s)) ≡ ok s
unfolding coerce_status
coerce_status-ok s = rw status_of-status_value

module _ (hash : Text) (attempts : ℕ) (identity : Identity) where
  -- A report of a failure on a non-empty hash, a non-empty id and an attempt number in range is always
  -- built, and carries the arguments, the detail cut to its limit.
  make_failed_lem :
      (retryable : Bool) (reason : Reason) (detail : Option Text)
      → hash ≢ []
      → identity.id ≢ []
      → attempts ≤ max_integer
      → make_failed hash attempts retryable reason detail identity
        ≡ ok (record {
          hash = hash;
          status = failed;
          attempts = attempts;
          retryable = some retryable;
          reason = some reason;
          detail = clip_option detail;
          chunk_count = none;
          id = identity.id;
          created_at = identity.now;
        })
  unfolding make_failed assemble check_created_at check_retryable check_chunk_count check_failed
  make_failed_lem retryable reason detail h i fit = rw (
    check_nonempty-ok _ hash h,
    coerce_status-ok failed,
    coerce_reason-ok reason,
    check_attempts-ok attempts fit,
    check_nonempty-ok _ identity.id i,
    check_detail-ok detail,
  )

  -- A report of a success on a non-empty hash, a non-empty id, an attempt number in range and, if it is
  -- given, a chunk count in range is always built, and carries the arguments.
  make_indexed_lem :
      (chunk_count : Option ℕ)
      → hash ≢ []
      → identity.id ≢ []
      → attempts ≤ max_integer
      → Fits (λ n. n) max_integer chunk_count
      → make_indexed hash attempts chunk_count identity
        ≡ ok (record {
          hash = hash;
          status = indexed;
          attempts = attempts;
          retryable = none;
          reason = none;
          detail = none;
          chunk_count = chunk_count;
          id = identity.id;
          created_at = identity.now;
        })
  unfolding make_indexed assemble coerce_reason check_created_at check_retryable check_detail
      check_failed
  make_indexed_lem chunk_count h i fit count_fits = rw (
    check_nonempty-ok _ hash h,
    coerce_status-ok indexed,
    check_attempts-ok attempts fit,
    check_nonempty-ok _ identity.id i,
    check_chunk_count-ok chunk_count count_fits,
  )

check_nonempty-eq : (name t s : Text) → check_nonempty name (text t) ≡ ok s → s ≡ t
unfolding check_nonempty
check_nonempty-eq name t s h = ground arith

check_attempts-eq : (n m : ℕ) → check_attempts (int (pos n)) ≡ ok m → m ≡ n
unfolding check_attempts
check_attempts-eq n m h = ground arith

module _ (hash : Text) (attempts : ℕ) (identity : Identity) (s : StatusEvent) where
  -- A report echoes the hash and the attempt number that it is made from.
  pub make_indexed-echo :
      (chunk_count : Option ℕ)
      → make_indexed hash attempts chunk_count identity ≡ ok s
      → (s.hash ≡ hash) × (s.attempts ≡ attempts)
  unfolding make_indexed
  make_indexed-echo chunk_count h =
      let (is_hash, _, _, is_attempts, _, _, _, _, _) =
        assemble-inv (check_nonempty (str "hash") (text hash))
          (coerce_status (text (status_value indexed))) (coerce_reason null)
          (check_attempts (int (pos attempts))) (check_nonempty (str "id") (text identity.id))
          (check_created_at (moment (utc identity.now))) (check_retryable null) (check_detail null)
          (check_chunk_count (optional (λ n. int (pos n)) chunk_count)) s h in
      (check_nonempty-eq _ hash s.hash is_hash, check_attempts-eq attempts s.attempts is_attempts)

  pub make_failed-echo :
      (retryable : Bool) (reason : Reason) (detail : Option Text)
      → make_failed hash attempts retryable reason detail identity ≡ ok s
      → (s.hash ≡ hash)
        × (s.attempts ≡ attempts)
        × (s.reason ≡ some reason)
        × (s.retryable ≡ some retryable)
  unfolding make_failed check_retryable
  make_failed-echo retryable reason detail h =
      let (is_hash, _, is_reason, is_attempts, _, is_retryable, _, _, _) =
        assemble-inv (check_nonempty (str "hash") (text hash))
          (coerce_status (text (status_value failed))) (coerce_reason (text (reason_value reason)))
          (check_attempts (int (pos attempts))) (check_nonempty (str "id") (text identity.id))
          (check_created_at (moment (utc identity.now))) (check_retryable (bool retryable))
          (check_detail (optional text detail)) (check_chunk_count null) s h in
      (
        check_nonempty-eq _ hash s.hash is_hash,
        check_attempts-eq attempts s.attempts is_attempts,
        cc (coerce_reason-ok reason),
        cc,
      )
