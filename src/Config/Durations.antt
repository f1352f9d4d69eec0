-- ===== src/Config/Durations.antt =====
-- The duration grammar of services/rag-service/src/rag/core/config_reader.py.
use rag_poc.Prelude.{
  ℕ, zero, suc, ◌+◌, ◌-◌, ◌*◌, ◌≤◌, Text, ◌≡◌, refl, sym, ap, ◌∙◌, ◌↔◌, inl, inr, Bool-cases,
  Option-cases, some, [], ◌∷◌, ◌++◌, length, All, arith, true,
}
use rag_poc.Value.{text}
use rag_poc.Config.{
  unit_seconds, is_digit, rest_of_duration, duration_seconds, parse_duration, second,
}

-- The number of a text of digits, after the number read so far.
abbrev pub number : ℕ → Text → ℕ
number n [] = n
number n (c ∷ t) = number (n * 10 + (c - b'0')) t

-- A text of one to six digits and a unit, and its seconds.
pub record IsDuration (t : Text) (seconds : ℕ) : Type 0 where
  pub digits : Text
  pub unit : ℕ
  pub factor : ℕ
  pub written : t ≡ digits ++ unit ∷ []
  pub unit_known : unit_seconds unit ≡ some factor
  pub all_digits : All (λ c. is_digit c ≡ true) digits
  pub some_digits : 1 ≤ length digits
  pub few_digits : length digits ≤ 6
  pub value : seconds ≡ number 0 digits * factor

record IsRest (n read : ℕ) (t : Text) (seconds : ℕ) : Type 0 where
  digits : Text
  unit : ℕ
  factor : ℕ
  written : t ≡ digits ++ unit ∷ []
  unit_known : unit_seconds unit ≡ some factor
  all_digits : All (λ c. is_digit c ≡ true) digits
  few_digits : length digits ≤ n
  value : seconds ≡ number read digits * factor

rest_of_duration-IsRest :
    (n read : ℕ) (t : Text) (seconds : ℕ)
    → rest_of_duration n read t ≡ some seconds
    → IsRest n read t seconds
unfolding rest_of_duration
rest_of_duration-IsRest n read [] seconds h = absurd (cc h)
rest_of_duration-IsRest n read (c ∷ []) seconds h = elim (Option-cases (unit_seconds c)) [
  | inl e ↦ absurd (cc (rw (e, rest_of_duration) at h))
  | inr (u, e) ↦
      let k : some (read * u) ≡ some seconds = rw (e, rest_of_duration) at h in
      record {
        digits = [];
        unit = c;
        factor = u;
        written = refl;
        unit_known = e;
        all_digits = tt;
        few_digits = omega arith;
        value = sym (cc k);
      }
]
rest_of_duration-IsRest zero read (c ∷ (d ∷ t)) seconds h = absurd (cc h)
rest_of_duration-IsRest (suc n) read (c ∷ (d ∷ t)) seconds h = elim (Bool-cases (is_digit c)) [
  | inr e ↦ absurd (cc (rw (e, rest_of_duration) at h))
  | inl e ↦
      let r =
        rest_of_duration-IsRest n (read * 10 + (c - b'0')) (d ∷ t) seconds
          (rw (e, rest_of_duration) at h) in
      record {
        digits = c ∷ r.digits;
        unit = r.unit;
        factor = r.factor;
        written = ap (λ t. c ∷ t) r.written;
        unit_known = r.unit_known;
        all_digits = (e, r.all_digits);
        few_digits = omega (arith, r.few_digits);
        value = r.value;
      }
]

from_zero : (c : ℕ) → c - b'0' ≡ 0 * 10 + (c - b'0')
from_zero c = omega arith

duration_seconds-IsDuration :
    (t : Text) (seconds : ℕ) → duration_seconds t ≡ some seconds → IsDuration t seconds
unfolding duration_seconds
duration_seconds-IsDuration [] seconds h = absurd (cc h)
duration_seconds-IsDuration (c ∷ t) seconds h = elim (Bool-cases (is_digit c)) [
  | inr e ↦ absurd (cc (rw (e, duration_seconds) at h))
  | inl e ↦
      let r = rest_of_duration-IsRest 5 (c - b'0') t seconds (rw (e, duration_seconds) at h) in
      record {
        digits = c ∷ r.digits;
        unit = r.unit;
        factor = r.factor;
        written = ap (λ t. c ∷ t) r.written;
        unit_known = r.unit_known;
        all_digits = (e, r.all_digits);
        some_digits = omega arith;
        few_digits = omega (arith, r.few_digits);
        value = r.value ∙ ap (λ n. number n r.digits * r.factor) (from_zero c);
      }
]

rest_complete :
    (n read : ℕ) (digits : Text) (unit factor : ℕ)
    → unit_seconds unit ≡ some factor
    → All (λ c. is_digit c ≡ true) digits
    → length digits ≤ n
    → rest_of_duration n read (digits ++ unit ∷ []) ≡ some (number read digits * factor)
unfolding rest_of_duration
rest_complete n read [] unit factor u a l = rw (u, rest_of_duration) refl
rest_complete zero read (c ∷ ds) unit factor u a l = absurd (omega arith)
rest_complete (suc n) read (c ∷ []) unit factor u a l =
    rw (a.0, rest_of_duration)
      (rest_complete n (read * 10 + (c - b'0')) [] unit factor u tt (omega arith))
rest_complete (suc n) read (c ∷ (d ∷ ds)) unit factor u a l =
    rw (a.0, rest_of_duration)
      (rest_complete n (read * 10 + (c - b'0')) (d ∷ ds) unit factor u a.1 (omega arith))

duration_complete :
    (t : Text) (seconds : ℕ) → IsDuration t seconds → duration_seconds t ≡ some seconds
unfolding duration_seconds
duration_complete t seconds d =
    rw (d.written, d.value)
      (written d.digits d.unit d.factor d.unit_known d.all_digits d.some_digits d.few_digits)
  where
    written :
        (digits : Text) (unit factor : ℕ)
        → unit_seconds unit ≡ some factor
        → All (λ c. is_digit c ≡ true) digits
        → 1 ≤ length digits
        → length digits ≤ 6
        → duration_seconds (digits ++ unit ∷ []) ≡ some (number 0 digits * factor)
    written [] unit factor u a some_digits few = absurd (omega arith)
    written (c ∷ ds) unit factor u a some_digits few =
        rw (a.0, duration_seconds)
          (rest_complete 5 (c - b'0') ds unit factor u a.1 (omega arith)
            ∙ ap (λ n. some (number n ds * factor)) (from_zero c))

-- A text parses as a duration exactly when it is one to six decimal digits and one of the units s, m
-- and h, and then to their number of seconds, minutes or hours, in microseconds.
pub parse_duration_exact :
    (t : Text) (d : ℕ)
    → (parse_duration (text t) ≡ some d)
      ↔ ((seconds : ℕ) × IsDuration t seconds × (d ≡ seconds * second))
unfolding parse_duration
parse_duration_exact t d = (
  λ h. elim (Option-cases (duration_seconds t)) [
    | inl e ↦ absurd (cc (rw (e, parse_duration) at h))
    | inr (s, e) ↦
        let k : some (s * second) ≡ some d = rw (e, parse_duration) at h in
        (s, duration_seconds-IsDuration t s e, sym (cc k))
  ],
  λ (s, i, e). rw (duration_complete t s i, parse_duration, e) refl,
)
