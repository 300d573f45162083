-- ===== src/Tcb/State.antt =====
-- orchestrator/tcb/core.py: the state of the outer tool, a JSON file with a hash of itself, and its one
-- transition. `json.loads` and the two ways of `json.dumps` are arguments; that writing and replacing
-- the file succeed is not modelled.
pub mod Members
pub mod Transition
use mgk_governance_kernel.Prelude.{
  Bool, true, false, ◌||◌, not, Option, none, some, List, [], ◌∷◌, ◌++◌, String, str_eq, member,
  if◌then◌else◌,
}
use mgk_governance_kernel.Prelude.Int.{ℤ, pos, ltb_ℤ, eqb_ℤ}
use mgk_governance_kernel.Errors.{
  Result, ok, err, runtime_error, value_error, os_error, ◌>>=◌, ◌>>◌, raise_if, or_raise,
}
use mgk_governance_kernel.Json.{Value, Items, Fields, texts, without, has_exactly, is_str}
use mgk_governance_kernel.Json.Access.{members, index, integer, text}
use mgk_governance_kernel.Platform.{Bytes, Platform}
use mgk_governance_kernel.Tcb.Texts.{Text}
use mgk_governance_kernel.Tcb.Trust.{Tree, verify_protected_tree}

-- `json.loads(text)` of the content of a file, `json.dumps(value, sort_keys=True, separators=(",", ":"),
-- ensure_ascii=True).encode("ascii")`, and the bytes that `json.dump(state, stream, indent=2,
-- sort_keys=True)` writes with the newline after them.
pub record Json : Type 0 where
  pub loads : Bytes → Option Value
  pub dumps_ascii : Value → Bytes
  pub dump_indented : Value → Bytes

abbrev pub state_keys : List String
state_keys = "version" ∷ "phase" ∷ "attempts" ∷ "phases_done" ∷ "hash" ∷ []

-- The members of a list of texts.
unfoldable pub text_items : Items → Result (List String)
text_items Items.nil = ok []
text_items (Items.cons v vs) = text runtime_error v >>= λ t. text_items vs >>= λ ts. ok (t ∷ ts)

abbrev pub text_list : Value → Result (List String)
text_list (Value.arr vs) = text_items vs
text_list _ = err runtime_error

abbrev pub has_repeat : List String → Bool
has_repeat [] = false
has_repeat (t ∷ ts) = member t ts || has_repeat ts

abbrev pub same_texts : List String → List String → Bool
same_texts [] [] = true
same_texts (t ∷ ts) (u ∷ us) = if str_eq t u then same_texts ts us else false
same_texts _ _ = false

-- `expected_done`.
abbrev pub expected_done : String → Option (List String)
expected_done phase =
    if str_eq phase "F00" then some [] else if str_eq phase "DONE" then some ("F00" ∷ []) else none

-- `d[key] = value`: in the place of the old value, or at the end.
unfoldable pub assign : String → Value → Fields → Fields
assign k v Fields.end = Fields.field k v Fields.end
assign k v (Fields.field j w fs) =
    if str_eq j k then Fields.field j v fs else Fields.field j w (assign k v fs)

module _ (p : Platform) (js : Json) where
  unfoldable pub compute_state_hash : Fields → String
  compute_state_hash state = p.sha256 (js.dumps_ascii (Value.obj (without "hash" state)))

  -- The tests of `verify_state` on the members. A phase that is no text is in no dict
  -- of texts; that a list or an object raises a TypeError there is not told apart.
  unfoldable pub check_state : Fields → Result (Unit {0})
  unfolding text_items
  check_state state = do
    raise_if (not (has_exactly state_keys state)) runtime_error
    version_value ← index state "version"
    version ← integer runtime_error version_value
    raise_if (not (eqb_ℤ version (pos 1))) runtime_error
    attempts_value ← index state "attempts"
    attempts ← integer runtime_error attempts_value
    raise_if (ltb_ℤ attempts (pos 0)) runtime_error
    done_value ← index state "phases_done"
    phases_done ← text_list done_value
    raise_if (has_repeat phases_done) runtime_error
    phase_value ← index state "phase"
    phase ← text runtime_error phase_value
    expected ← or_raise (expected_done phase) runtime_error
    raise_if (not (same_texts phases_done expected)) runtime_error
    hash ← index state "hash"
    raise_if (not (is_str (compute_state_hash state) hash)) runtime_error

  -- `verify_state`, over the content of the file (`none` where it cannot be read). What is no object
  -- does not have the keys; the class of that exception is not told apart.
  unfoldable pub verify_state : Option Bytes → Result Fields
  unfolding check_state
  verify_state file = do
    content ← or_raise file os_error
    value ← or_raise (js.loads content) value_error
    state ← members runtime_error value
    check_state state
    ok state

  -- The state that `advance_state` writes.
  unfoldable pub advanced : Fields → Fields
  unfolding assign compute_state_hash
  advanced state =
      let next = assign "attempts" (Value.int (pos 0)) (
        assign "phase" (Value.str "DONE")
          (assign "phases_done" (Value.arr (texts ("F00" ∷ []))) state)) in
      assign "hash" (Value.str (compute_state_hash next)) next

  -- The tests before the write.
  unfoldable pub may_advance : Text → Tree → Option Bytes → Result Fields
  unfolding verify_state
  may_advance anchor tree file = do
    verify_protected_tree p anchor tree
    state ← verify_state file
    phase ← index state "phase"
    raise_if (not (is_str "F00" phase)) runtime_error
    ok state

  abbrev pub write_state : Result Fields → Option Bytes → Result Fields × Option Bytes
  write_state (err e) file = (err e, file)
  write_state (ok state) file =
      let written = some (js.dump_indented (Value.obj (advanced state))) in
      (verify_state written, written)

  -- `advance_state`: the state or the exception, and the file as it is left.
  unfoldable pub advance_state : Text → Tree → Option Bytes → Result Fields × Option Bytes
  unfolding may_advance advanced
  advance_state anchor tree file = write_state (may_advance anchor tree file) file
