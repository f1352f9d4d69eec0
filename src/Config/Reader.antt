-- ===== src/Config/Reader.antt =====
-- The typed readers of _Reader in services/rag-service/src/rag/core/config_reader.py: each looks a
-- key up, records what is wrong with its value and returns something in any case.
use rag_poc.Prelude.{
  ℕ, suc, ◌-◌, ◌^◌, Text, str, Bool, false, not, ◌&&◌, ◌||◌, Option, none, some, List, [], ◌∷◌,
  ◌++◌, text_eq, mem_text, join, ltb, leb, ◌==◌, if◌then◌else◌,
}
use rag_poc.Value.{
  Value, int, float, not_finite, bool, text, array, object, Items, nil, cons, Fields, end, lookup,
  ℤ, pos, negsuc,
}
use rag_poc.Failure.{other_error}
use rag_poc.Exec.{Exec, pure, raise, modify, ◌>>◌}
use rag_poc.Config.{Float, TimingProblem, parse_duration}

-- What is wrong with a value: the wording of the message.
pub data Complaint : Type 0 where
  not_nonempty_string not_string not_integer not_number not_fraction not_flag not_choice : Complaint
  bad_duration not_positive not_nonempty_list : Complaint
  too_small too_large : ℕ → Complaint
  bad_extension : Value → Complaint

pub data Problem : Type 0 where
  wrong_value : List Text → Text → Complaint → Problem
  wrong_timing : TimingProblem → Problem

-- The fields of _Reader that change.
pub record Reader : Type 0 where
  pub problems : List Problem
  pub invalid_durations : List Text

abbrev pub Read : Type 0 → Type 0
Read A = Exec Reader A

-- node.get(part) if isinstance(node, dict) else None
abbrev child : Option Value → Text → Option Value
child (some (object f)) part = lookup part f
child _ part = none

abbrev node_at : Option Value → List Text → Option Value
node_at node [] = node
node_at node (part ∷ path) = node_at (child node part) path

abbrev as_table : Option Value → Fields
as_table (some (object f)) = f
as_table _ = end

-- _table
unfoldable pub table : Fields → List Text → Fields
table raw path = as_table (node_at (some (object raw)) path)

-- What a value is read as, and what is wrong with it.
abbrev pub Reading : Type 0 → Type 0
Reading A = A × List Complaint

-- text
unfoldable pub text_of : Option Value → Reading Text
text_of (some (text t)) = if text_eq t [] then ([], not_nonempty_string ∷ []) else (t, [])
text_of _ = ([], not_nonempty_string ∷ [])

-- optional_text
unfoldable pub optional_text_of : Option Value → Reading Text
optional_text_of none = ([], [])
optional_text_of (some (text t)) = (t, [])
optional_text_of _ = ([], not_string ∷ [])

-- integer; a negative one is below every minimum, and is returned as 0
unfoldable pub integer_of : ℕ → ℕ → Option Value → Reading ℕ
integer_of minimum maximum (some (int (pos n))) =
    if ltb n minimum
    then (n, too_small minimum ∷ [])
    else if ltb maximum n
    then (n, too_large maximum ∷ [])
    else (n, [])
integer_of minimum maximum (some (int (negsuc n))) = (0, too_small minimum ∷ [])
integer_of minimum maximum _ = (minimum, not_integer ∷ [])

-- optional_flag
unfoldable pub flag_of : Option Value → Reading Bool
flag_of none = (false, [])
flag_of (some (bool b)) = (b, [])
flag_of _ = (false, not_flag ∷ [])

abbrev first_of : List Text → Text
first_of [] = []
first_of (t ∷ ts) = t

-- choice
unfoldable pub choice_of : List Text → Option Value → Reading Text
choice_of allowed (some (text t)) =
    if mem_text t allowed then (t, []) else (first_of allowed, not_choice ∷ [])
choice_of allowed _ = (first_of allowed, not_choice ∷ [])

-- duration
unfoldable pub duration_of : Option Value → Reading ℕ
duration_of none = (0, bad_duration ∷ [])
duration_of (some v) = elim (parse_duration v) [
  | none ↦ (0, bad_duration ∷ [])
  | some d ↦ if d == 0 then (0, not_positive ∷ []) else (d, [])
]

-- _EXTENSION_FORBIDDEN
abbrev is_forbidden : ℕ → Bool
is_forbidden c = c == b'.' || c == b'/' || c == 92 || c == b' ' || c == 9

abbrev any_forbidden : Text → Bool
any_forbidden [] = false
any_forbidden (c ∷ t) = is_forbidden c || any_forbidden t

-- the test of extensions on one entry
unfoldable pub is_extension : Text → Bool
is_extension (d ∷ (c ∷ t)) = d == b'.' && not (any_forbidden (c ∷ t))
is_extension _ = false

unfoldable pub extensions_of_items : Items → Reading (List Text)
extensions_of_items nil = ([], [])
extensions_of_items (cons (text t) items) =
    let (ts, cs) = extensions_of_items items in
    if is_extension t then (t ∷ ts, cs) else (ts, bad_extension (text t) ∷ cs)
extensions_of_items (cons v items) =
    let (ts, cs) = extensions_of_items items in (ts, bad_extension v ∷ cs)

-- extensions
unfoldable pub extensions_of : Option Value → Reading (List Text)
unfolding extensions_of_items
extensions_of (some (array (cons v items))) = extensions_of_items (cons v items)
extensions_of _ = ([], not_nonempty_list ∷ [])

abbrev pub complaints : List Text → Text → List Complaint → List Problem
complaints path key [] = []
complaints path key (c ∷ cs) = wrong_value path key c ∷ complaints path key cs

-- _fail, for each complaint
unfoldable pub fail : List Text → Text → List Complaint → Read (Unit {0})
unfolding modify
fail path key cs = modify (λ r. record r { problems = r.problems ++ complaints path key cs })

-- Whether a float exists for the integer: float() raises OverflowError from 2^1024 - 2^970 on.
unfoldable pub overflows : ℤ → Bool
overflows (pos n) = leb (2 ^ 1024 - 2 ^ 970) n
overflows (negsuc n) = leb (2 ^ 1024 - 2 ^ 970) (suc n)

-- the test of fraction
unfoldable pub is_fraction : ℤ → ℕ → Bool
is_fraction (pos m) k = ltb m (2 ^ k)
is_fraction (negsuc m) k = false

-- what duration does with the name of a bad one
unfoldable pub keep_name : Text → List Complaint → Read (Unit {0})
unfolding modify
keep_name name [] = pure tt
keep_name name (c ∷ cs) = modify (λ r. record r { invalid_durations = name ∷ r.invalid_durations })

module _ (path : List Text) (key : Text) where
  -- fraction: a value out of range is converted all the same. An integer is returned as it is; the
  -- rounding of a large one is left out.
  unfoldable pub fraction_from : Option Value → Read Float
  unfolding fail is_fraction overflows
  fraction_from (some (int z)) = do
    fail path key (if is_fraction z 0 then [] else not_fraction ∷ [])
    if overflows z
        then raise (other_error (str "OverflowError"))
        else pure (record { mantissa = z; shift = 0 })
  fraction_from (some (float m k)) = do
    fail path key (if is_fraction m k then [] else not_fraction ∷ [])
    pure (record { mantissa = m; shift = k })
  fraction_from (some not_finite) = do
    fail path key (not_fraction ∷ [])
    pure (record { mantissa = pos 0; shift = 0 })
  fraction_from _ = do
    fail path key (not_number ∷ [])
    pure (record { mantissa = pos 0; shift = 0 })

module _ (raw : Fields) (path : List Text) (key : Text) where
  -- One key, by its reader.
  unfoldable pub read : {A : Type 0} → (Option Value → Reading A) → Read A
  unfolding fail
  read of = let (a, cs) = of (lookup key (table raw path)) in do fail path key cs; pure a

  -- duration: the name of a bad one is kept
  unfoldable pub read_duration : Read ℕ
  unfolding fail keep_name join
  read_duration =
      let (d, cs) = duration_of (lookup key (table raw path)) in
      do fail path key cs; keep_name (join (str ".") (path ++ key ∷ [])) cs; pure d

  unfoldable pub read_fraction : Read Float
  unfolding fraction_from
  read_fraction = fraction_from path key (lookup key (table raw path))
