-- ===== src/Config/Values.antt =====
-- What the typed readers of services/rag-service/src/rag/core/config_reader.py guarantee of a value
-- that they do not complain about.
use rag_poc.Prelude.{
  ℕ, ◌==◌, ◌≤◌, ◌<◌, Text, ◌≡◌, ◌≢◌, refl, ap, inl, inr, Bool, true, false, Option, none, some,
  List, [], ◌∷◌, All, text_eq, text_eq_iff, mem_text, arith, Bool-cases, if◌then◌else◌,
}
use rag_poc.Value.{
  Value, int, float, not_finite, bool, text, array, Items, nil, cons, Fields, lookup, pos, negsuc,
}
use rag_poc.Config.{Float, parse_duration}
use rag_poc.Config.Source.{
  IsTextOf, IsOptionalOf, IsFlagOf, IsIntegerOf, IsDurationOf, IsNumberOf, IsListOf, items_of,
}
use rag_poc.Config.Reader.{
  Reading, bad_duration, not_positive, table, read, read_duration, read_fraction, text_of,
  optional_text_of, integer_of, flag_of, choice_of, duration_of, extensions_of, extensions_of_items,
  is_extension, is_fraction, overflows, fraction_from, not_fraction, not_number,
}
use rag_poc.Config.Checked.{
  Checked, Checked-pure, Checked-raise, Checked-if, Checked-bind, Checked-fail, Checked-keep_name,
}

-- What is read of every value that the reader does not complain about has P with that value.
pub record Accepts {A : Type 0} (of : Option Value → Reading A) (P : Option Value → A → Type 0)
    : Type 0 where
  pub accepted : (v : Option Value) → (of v).1 ≡ [] → P v (of v).0

pub text_of-Accepts : Accepts text_of (λ v t. (t ≢ []) × IsTextOf v t)
unfolding text_of
text_of-Accepts = record { accepted = check }
  where
    check :
        (v : Option Value) → (text_of v).1 ≡ [] → ((text_of v).0 ≢ []) × IsTextOf v (text_of v).0
    check (some (text t)) h = elim (Bool-cases (text_eq t [])) [
      | inl e ↦ absurd (cc (rw (e, text_of) at h))
      | inr e ↦ rw (e, text_of) ((λ is_empty. cc (e, (text_eq_iff t []).1 is_empty)), refl)
    ]
    check none h = absurd (cc h)
    check (some _) h = absurd (cc h)

pub optional_text_of-Accepts : Accepts optional_text_of IsOptionalOf
unfolding optional_text_of
optional_text_of-Accepts = record { accepted = check }
  where
    check : (v : Option Value) → (optional_text_of v).1 ≡ [] → IsOptionalOf v (optional_text_of v).0
    check (some (text t)) h = inl refl
    check none h = inr (refl, refl)
    check (some _) h = absurd (cc h)

pub flag_of-Accepts : Accepts flag_of IsFlagOf
unfolding flag_of
flag_of-Accepts = record { accepted = check }
  where
    check : (v : Option Value) → (flag_of v).1 ≡ [] → IsFlagOf v (flag_of v).0
    check (some (bool b)) h = inl refl
    check none h = inr (refl, refl)
    check (some _) h = absurd (cc h)

pub integer_of-Accepts :
    (minimum maximum : ℕ)
    → Accepts
        (integer_of minimum maximum)
        (λ v n. ((minimum ≤ n) × (n ≤ maximum)) × IsIntegerOf v n)
unfolding integer_of
integer_of-Accepts minimum maximum = record { accepted = check }
  where
    same_number : (n : ℕ) → (integer_of minimum maximum (some (int (pos n)))).0 ≡ n
    same_number n = ground arith

    check :
        (v : Option Value)
        → (integer_of minimum maximum v).1 ≡ []
        → ((minimum ≤ (integer_of minimum maximum v).0)
            × ((integer_of minimum maximum v).0 ≤ maximum))
          × IsIntegerOf v (integer_of minimum maximum v).0
    check (some (int (pos n))) h = (ground arith, cc (same_number n))
    check (some (int (negsuc n))) h = absurd (cc h)
    check none h = absurd (cc h)
    check (some _) h = absurd (cc h)

pub choice_of-Accepts :
    (allowed : List Text)
    → Accepts (choice_of allowed) (λ v t. (mem_text t allowed ≡ true) × IsTextOf v t)
unfolding choice_of
choice_of-Accepts allowed = record { accepted = check }
  where
    check :
        (v : Option Value)
        → (choice_of allowed v).1 ≡ []
        → (mem_text (choice_of allowed v).0 allowed ≡ true) × IsTextOf v (choice_of allowed v).0
    check (some (text t)) h = elim (Bool-cases (mem_text t allowed)) [
      | inl e ↦ rw (e, choice_of) (e, refl)
      | inr e ↦ absurd (cc (rw (e, choice_of) at h))
    ]
    check none h = absurd (cc h)
    check (some _) h = absurd (cc h)

pub duration_of-positive :
    (v : Option Value)
    → (duration_of v).1 ≡ []
    → (0 < (duration_of v).0) × IsDurationOf v (duration_of v).0
unfolding duration_of
duration_of-positive none h = absurd (cc h)
duration_of-positive (some v) h = of_parsed (parse_duration v) refl h
  where
    reading : Option ℕ → Reading ℕ
    reading r = elim r [
      | none ↦ (0, bad_duration ∷ [])
      | some d ↦ if d == 0 then (0, not_positive ∷ []) else (d, [])
    ]

    positive : (d : ℕ) → (d == 0) ≡ false → 0 < d
    positive d e = ground arith

    of_number :
        (d : ℕ)
        → parse_duration v ≡ some d
        → (reading (some d)).1 ≡ []
        → (0 < (reading (some d)).0) × IsDurationOf (some v) (reading (some d)).0
    of_number d e g = elim (Bool-cases (d == 0)) [
      | inl z ↦ absurd (cc (rw z at g))
      | inr z ↦ rw z (positive d z, (v, refl, e))
    ]

    of_parsed :
        (r : Option ℕ)
        → parse_duration v ≡ r
        → (reading r).1 ≡ []
        → (0 < (reading r).0) × IsDurationOf (some v) (reading r).0
    of_parsed none e g = absurd (cc g)
    of_parsed (some d) e g = of_number d e g

extensions_of_items-valid :
    (items : Items)
    → (extensions_of_items items).1 ≡ []
    → All (λ t. is_extension t ≡ true) (extensions_of_items items).0
      × (items ≡ items_of (extensions_of_items items).0)
unfolding extensions_of_items
extensions_of_items-valid nil h = (tt, refl)
extensions_of_items-valid (cons (text t) items) h = elim (Bool-cases (is_extension t)) [
  | inl e ↦
      let (valid, same) = extensions_of_items-valid items (rw (e, extensions_of_items) at h) in
      rw (e, extensions_of_items) ((e, valid), ap (cons (text t)) same)
  | inr e ↦ absurd (cc (rw (e, extensions_of_items) at h))
]
extensions_of_items-valid (cons _ items) h = absurd (cc h)

-- Some items are no empty list of texts.
not_nil : (v : Value) (items : Items) (ts : List Text) → cons v items ≡ items_of ts → ts ≢ []
not_nil v items [] same e = absurd (cc same)
not_nil v items (t ∷ ts) same e = cc e

pub extensions_of-Accepts :
    Accepts extensions_of (λ v ts. All (λ t. is_extension t ≡ true) ts × IsListOf v ts)
unfolding extensions_of
extensions_of-Accepts = record { accepted = check }
  where
    check :
        (v : Option Value)
        → (extensions_of v).1 ≡ []
        → All (λ t. is_extension t ≡ true) (extensions_of v).0 × IsListOf v (extensions_of v).0
    check (some (array (cons v items))) h =
        let (valid, same) = extensions_of_items-valid (cons v items) h in
        (valid, (ap (λ x. some (array x)) same, not_nil v items _ same))
    check (some (array nil)) h = absurd (cc h)
    check none h = absurd (cc h)
    check (some _) h = absurd (cc h)

-- A fraction is at least 0 and less than 1.
abbrev pub IsFraction : Float → Type 0
IsFraction f = is_fraction f.mantissa f.shift ≡ true

no_complaint : (b : Bool) → (if b then [] else not_fraction ∷ []) ≡ [] → b ≡ true
no_complaint true h = refl
no_complaint false h = absurd (cc h)

fraction_from-Checked :
    (path : List Text) (key : Text) (v : Option Value)
    → Checked (λ f. IsFraction f × IsNumberOf v f) (fraction_from path key v)
unfolding fraction_from
fraction_from-Checked path key (some (int z)) = Checked-bind _ _ (Checked-fail path key _) λ u.
    Checked-if (overflows z) _ _ (λ _. Checked-raise _)
      (λ _. Checked-pure _ (λ h. (no_complaint (is_fraction z 0) h, inr (refl, refl))))
fraction_from-Checked path key (some (float m k)) =
    Checked-bind _ _ (Checked-fail path key _)
      λ u. Checked-pure _ (λ h. (no_complaint (is_fraction m k) h, inl refl))
fraction_from-Checked path key (some not_finite) =
    Checked-bind _ _ (Checked-fail path key (not_fraction ∷ []))
      λ u. Checked-pure _ (λ h. absurd (cc h))
fraction_from-Checked path key none =
    Checked-bind _ _ (Checked-fail path key (not_number ∷ []))
      λ u. Checked-pure _ (λ h. absurd (cc h))
fraction_from-Checked path key (some _) =
    Checked-bind _ _ (Checked-fail path key (not_number ∷ []))
      λ u. Checked-pure _ (λ h. absurd (cc h))

module _ (raw : Fields) (path : List Text) (key : Text) where
  pub read-Checked :
      {A : Type 0} {P : Option Value → A → Type 0} (of : Option Value → Reading A)
      → Accepts of P
      → Checked (P (lookup key (table raw path))) (read raw path key of)
  unfolding read
  read-Checked of accepts =
      Checked-bind _ _ (Checked-fail path key _)
        λ u. Checked-pure _ (λ clean. accepts.accepted (lookup key (table raw path)) clean)

  pub read_duration-Checked :
      Checked
        (λ d. (0 < d) × IsDurationOf (lookup key (table raw path)) d)
        (read_duration raw path key)
  unfolding read_duration
  read_duration-Checked =
      Checked-keep_name path key _ _ _
        (λ clean. duration_of-positive (lookup key (table raw path)) clean)

  pub read_fraction-Checked :
      Checked
        (λ f. IsFraction f × IsNumberOf (lookup key (table raw path)) f)
        (read_fraction raw path key)
  unfolding read_fraction
  read_fraction-Checked = fraction_from-Checked path key (lookup key (table raw path))
