-- ===== src/Limits.antt =====
-- src/limits.rs: the resource limits and the walk that checks them.
-- The counters of the walk are natural numbers: they count nodes and levels of a value in memory,
-- so a `usize` that holds them does not wrap.
pub mod Structure
use Prim.Native.String.{◌++◌}
use vertrule_verifier.Prelude.{
  ℕ, ◌+◌, String, List, Result, ok, err, ◌>>=◌, ltb, length, if◌then◌else◌,
}
use vertrule_verifier.Prelude.Text.{display}
use vertrule_verifier.Json.{
  Value, Items, Fields, array, object, nil, cons, end, field, items, entries,
}

pub record VerifierLimits : Type 0 where
  pub max_bytes : ℕ
  pub max_depth : ℕ
  pub max_node_count : ℕ
  pub max_object_size : ℕ
  pub max_array_size : ℕ
  pub max_chain_length : ℕ

-- `VerifierLimits::default()`
abbrev pub default_limits : VerifierLimits
default_limits = record {
  max_bytes = 1_048_576;
  max_depth = 64;
  max_node_count = 50_000;
  max_object_size = 256;
  max_array_size = 10_000;
  max_chain_length = 10_000;
}

-- Each variant carries `actual` and `limit`.
pub data LimitViolation : Type 0 where
  input_too_large : (actual limit : ℕ) → LimitViolation
  depth_exceeded : (actual limit : ℕ) → LimitViolation
  node_count_exceeded : (actual limit : ℕ) → LimitViolation
  object_too_large : (actual limit : ℕ) → LimitViolation
  array_too_large : (actual limit : ℕ) → LimitViolation
  chain_too_long : (actual limit : ℕ) → LimitViolation

abbrev message : String → ℕ → String → ℕ → String
message label actual unit limit =
    label ++ ": " ++ display actual ++ " " ++ unit ++ " exceeds limit of " ++ display limit

-- `impl Display for LimitViolation`
unfoldable pub violation_to_string : LimitViolation → String
violation_to_string (input_too_large actual limit) = message "input too large" actual "bytes" limit
violation_to_string (depth_exceeded actual limit) = message "depth exceeded" actual "levels" limit
violation_to_string (node_count_exceeded actual limit) =
    message "node count exceeded" actual "nodes" limit
violation_to_string (object_too_large actual limit) = message "object too large" actual "keys" limit
violation_to_string (array_too_large actual limit) =
    message "array too large" actual "elements" limit
violation_to_string (chain_too_long actual limit) =
    message "chain too long" actual "envelopes" limit

unfoldable pub check_byte_limit : List ℕ → VerifierLimits → Result LimitViolation (Unit {0})
check_byte_limit raw_bytes limits =
    if ltb limits.max_bytes (length raw_bytes)
    then err (input_too_large (length raw_bytes) limits.max_bytes)
    else ok tt

unfoldable pub check_chain_length : ℕ → VerifierLimits → Result LimitViolation (Unit {0})
check_chain_length n limits =
    if ltb limits.max_chain_length n then err (chain_too_long n limits.max_chain_length) else ok tt

-- The first part of `walk`: the depth test, the count and its test. The result is the new count.
enter : VerifierLimits → ℕ → ℕ → Result LimitViolation ℕ
enter limits depth count =
    if ltb limits.max_depth depth
    then err (depth_exceeded depth limits.max_depth)
    else if ltb limits.max_node_count (count + 1)
    then err (node_count_exceeded (count + 1) limits.max_node_count)
    else ok (count + 1)

-- The test on the size of an object or an array.
bounded : ℕ → ℕ → (ℕ → ℕ → LimitViolation) → ℕ → Result LimitViolation ℕ
bounded n limit violation count = if ltb limit n then err (violation n limit) else ok count

-- `walk`, with the node count of its `WalkState` passed in and out.
mutual
  walk : {N : Type 0} → Value N → VerifierLimits → ℕ → ℕ → Result LimitViolation ℕ
  walk (object fs) limits depth count = do
    entered ← enter limits depth count
    checked ← bounded (length (entries fs)) limits.max_object_size object_too_large entered
    walk_fields fs limits (depth + 1) checked
  walk (array xs) limits depth count = do
    entered ← enter limits depth count
    checked ← bounded (length (items xs)) limits.max_array_size array_too_large entered
    walk_items xs limits (depth + 1) checked
  walk _ limits depth count = enter limits depth count

  walk_items : {N : Type 0} → Items N → VerifierLimits → ℕ → ℕ → Result LimitViolation ℕ
  walk_items nil limits depth count = ok count
  walk_items (cons v vs) limits depth count = do
    next ← walk v limits depth count
    walk_items vs limits depth next

  walk_fields : {N : Type 0} → Fields N → VerifierLimits → ℕ → ℕ → Result LimitViolation ℕ
  walk_fields end limits depth count = ok count
  walk_fields (field k v fs) limits depth count = do
    next ← walk v limits depth count
    walk_fields fs limits depth next

unfoldable pub check_structure :
    {N : Type 0} → Value N → VerifierLimits → Result LimitViolation (Unit {0})
unfolding walk walk_items walk_fields enter bounded
check_structure value limits = do next ← walk value limits 0 0; ok tt
