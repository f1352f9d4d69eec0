-- ===== src/Event/Outbound/Laws.antt =====
-- The constructor StatusEvent(...) of services/rag-service/src/rag/transport/status_event.py, on
-- any arguments.
use rag_poc.Prelude.{
  ℕ, ◌≤◌, Text, str, ◌≡◌, ◌≢◌, Bool, Option, none, some, [], arith, text_eq_iff, Result, ok, length,
  length-take-le,
}
use rag_poc.Value.{Value, null, int, text, pos, negsuc}
use rag_poc.Event.{
  InvalidEvent, Status, indexed, failed, Reason, check_attempts, max_integer, max_detail_length,
}
use rag_poc.Event.Outbound.{
  Arguments, StatusEvent, check_nonempty, clip, assemble, check_detail, check_chunk_count,
  check_failed, coerce_status, coerce_reason, check_created_at, check_retryable, construct,
}

-- The limits of an optional part.
abbrev pub Fits {ℓ} : {A : Type ℓ} → (A → ℕ) → ℕ → Option A → Type 0
Fits size limit none = Unit
Fits size limit (some a) = size a ≤ limit

abbrev pub IsGiven {ℓ} : {A : Type ℓ} → Option A → Type 0
IsGiven none = ⊥
IsGiven (some a) = Unit

-- The contract of a status event.
pub record IsValid (s : StatusEvent) : Type 0 where
  pub hash : s.hash ≢ []
  pub id : s.id ≢ []
  pub attempts : s.attempts ≤ max_integer
  pub detail : Fits length max_detail_length s.detail
  pub chunk_count : Fits (λ n. n) max_integer s.chunk_count
  pub retryable : s.status ≡ failed → IsGiven s.retryable
  pub reason : s.status ≡ failed → IsGiven s.reason

check_nonempty-inv : (name : Text) (v : Value) (t : Text) → check_nonempty name v ≡ ok t → t ≢ []
unfolding check_nonempty
check_nonempty-inv name (text s) t h = ground (arith, text_eq_iff s [])
check_nonempty-inv name _ t h = absurd (cc h)

check_attempts-inv : (v : Value) (n : ℕ) → check_attempts v ≡ ok n → n ≤ max_integer
unfolding check_attempts
check_attempts-inv (int (pos m)) n h = ground arith
check_attempts-inv (int (negsuc m)) n h = absurd (cc h)
check_attempts-inv _ n h = absurd (cc h)

pub length-clip-le : (limit : ℕ) (t : Text) → length (clip limit t) ≤ limit
unfolding clip
length-clip-le limit t = ground (arith, length-take-le limit t)

check_detail-inv :
    (v : Value) (d : Option Text) → check_detail v ≡ ok d → Fits length max_detail_length d
unfolding check_detail
check_detail-inv (text t) none h = tt
check_detail-inv (text t) (some d) h =
    let e : clip max_detail_length t ≡ d = ground arith in
    rw (← e) (length-clip-le max_detail_length t)
check_detail-inv null none h = tt
check_detail-inv null (some d) h = absurd (cc h)
check_detail-inv _ d h = absurd (cc h)

check_chunk_count-inv :
    (v : Value) (c : Option ℕ) → check_chunk_count v ≡ ok c → Fits (λ n. n) max_integer c
unfolding check_chunk_count
check_chunk_count-inv v none h = tt
check_chunk_count-inv null (some n) h = absurd (cc h)
check_chunk_count-inv (int (pos m)) (some n) h = ground arith
check_chunk_count-inv (int (negsuc m)) (some n) h = absurd (cc h)
check_chunk_count-inv _ (some n) h = absurd (cc h)

check_failed-inv :
    (s : Status) (retryable : Option Bool) (reason : Option Reason)
    → check_failed s retryable reason ≡ ok tt
    → (s ≡ failed → IsGiven retryable) × (s ≡ failed → IsGiven reason)
unfolding check_failed
check_failed-inv indexed retryable reason h = (λ e. absurd (cc e), λ e. absurd (cc e))
check_failed-inv failed none reason h = absurd (cc h)
check_failed-inv failed (some b) none h = absurd (cc h)
check_failed-inv failed (some b) (some r) h = (λ e. tt, λ e. tt)

-- All the checks of the constructor passed.
pub assemble-inv :
    (r1 : Result InvalidEvent Text) (r2 : Result InvalidEvent Status)
    (r3 : Result InvalidEvent (Option Reason)) (r4 : Result InvalidEvent ℕ)
    (r5 : Result InvalidEvent Text) (r6 : Result InvalidEvent ℕ)
    (r7 : Result InvalidEvent (Option Bool)) (r8 : Result InvalidEvent (Option Text))
    (r9 : Result InvalidEvent (Option ℕ)) (s : StatusEvent)
    → assemble r1 r2 r3 r4 r5 r6 r7 r8 r9 ≡ ok s
    → (r1 ≡ ok s.hash)
      × (r2 ≡ ok s.status)
      × (r3 ≡ ok s.reason)
      × (r4 ≡ ok s.attempts)
      × (r5 ≡ ok s.id)
      × (r7 ≡ ok s.retryable)
      × (r8 ≡ ok s.detail)
      × (r9 ≡ ok s.chunk_count)
      × (check_failed s.status s.retryable s.reason ≡ ok tt)
unfolding assemble
assemble-inv r1 r2 r3 r4 r5 r6 r7 r8 r9 s h = ground arith

-- Whatever the arguments, an event that the constructor returns meets the contract: hash and id are
-- not empty, attempts and a chunk count are at most 2^31 - 1, a detail has at most 500 characters,
-- and a FAILED event carries retryable and a reason.
pub construct-IsValid : (a : Arguments) (s : StatusEvent) → construct a ≡ ok s → IsValid s
unfolding construct
construct-IsValid a s h =
    let (hash, _, _, attempts, id, _, detail, chunk_count, complete) =
      assemble-inv (check_nonempty (str "hash") a.hash) (coerce_status a.status)
        (coerce_reason a.reason) (check_attempts a.attempts) (check_nonempty (str "id") a.id)
        (check_created_at a.created_at) (check_retryable a.retryable) (check_detail a.detail)
        (check_chunk_count a.chunk_count) s h in
    let (retryable, reason) = check_failed-inv s.status s.retryable s.reason complete in
    record {
      hash = check_nonempty-inv _ a.hash _ hash;
      id = check_nonempty-inv _ a.id _ id;
      attempts = check_attempts-inv a.attempts _ attempts;
      detail = check_detail-inv a.detail _ detail;
      chunk_count = check_chunk_count-inv a.chunk_count _ chunk_count;
      retryable = retryable;
      reason = reason;
    }
