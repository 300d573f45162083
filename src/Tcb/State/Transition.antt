-- ===== src/Tcb/State/Transition.antt =====
-- The one transition of orchestrator/tcb/core.py, from the phase F00 to DONE.
use mgk_governance_kernel.Prelude.{
  ◌≡◌, refl, sym, ap, subst, ◌∙◌, true, not, Option, some, List, [], ◌∷◌, String, eq_iff, member,
  all, arith, false,
}
use mgk_governance_kernel.Prelude.Int.{pos}
use mgk_governance_kernel.Errors.{
  Error, Result, ok, err, runtime_error, os_error, value_error, ok_inj, bind_ok, guard_ok, or_raise,
}
use mgk_governance_kernel.Json.{Value, Fields, texts, get, keys, without, has_exactly, is_str}
use mgk_governance_kernel.Json.Access.{members, index, has_str}
use mgk_governance_kernel.Platform.{Bytes, Platform}
use mgk_governance_kernel.Tcb.Texts.{Text}
use mgk_governance_kernel.Tcb.Trust.{Tree, verify_protected_tree}
use mgk_governance_kernel.Tcb.State.Members.{
  get-assign, without-assign, keys-assign, IsState, check_state-IsState,
}
use mgk_governance_kernel.Tcb.State.{
  Json, state_keys, text_items, assign, compute_state_hash, check_state, verify_state, advanced,
  may_advance, write_state, advance_state,
}

module _ (p : Platform) (js : Json) where
  -- A state whose members have these values passes.
  exact-check_state :
      (fs : Fields)
      → all (λ k. member k state_keys) (keys fs) ≡ true
      → get "version" fs ≡ some (Value.int (pos 1))
      → get "attempts" fs ≡ some (Value.int (pos 0))
      → get "phases_done" fs ≡ some (Value.arr (texts ("F00" ∷ [])))
      → get "phase" fs ≡ some (Value.str "DONE")
      → get "hash" fs ≡ some (Value.str (compute_state_hash p js fs))
      → check_state p js fs ≡ ok tt
  unfolding check_state has_exactly text_items
  exact-check_state fs known version attempts phases phase hash =
      rw (known, version, attempts, phases, phase, hash)
        (ground (arith, eq_iff (compute_state_hash p js fs) (compute_state_hash p js fs)))

  hash-assign :
      (h : Value) (fs : Fields)
      → compute_state_hash p js fs ≡ compute_state_hash p js (assign "hash" h fs)
  unfolding compute_state_hash
  hash-assign h fs =
      ap (λ (x : Fields). p.sha256 (js.dumps_ascii (Value.obj x)))
        (sym (without-assign "hash" h fs))

  -- The state that is written passes the tests of the state that was read.
  pub advanced-check_state :
      (phase : String) (fs : Fields)
      → IsState p js phase fs
      → check_state p js (advanced p js fs) ≡ ok tt
  unfolding advanced
  advanced-check_state phase fs i =
      let list = Value.arr (texts ("F00" ∷ [])) in
      let done = Value.str "DONE" in
      let zero' = Value.int (pos 0) in
      let a = assign "phases_done" list fs in
      let b = assign "phase" done a in
      let c = assign "attempts" zero' b in
      let h = Value.str (compute_state_hash p js c) in
      let phase_a = get-assign "phases_done" "phase" list fs ∙ i.has_phase in
      let attempts_b =
        get-assign "phase" "attempts" done a
        ∙ get-assign "phases_done" "attempts" list fs
        ∙ i.has_attempts in
      let hash_c =
        get-assign "attempts" "hash" zero' b
        ∙ get-assign "phase" "hash" done a
        ∙ get-assign "phases_done" "hash" list fs
        ∙ i.hashed in
      let same =
        keys-assign "hash" h c _ hash_c
        ∙ keys-assign "attempts" zero' b _ attempts_b
        ∙ keys-assign "phase" done a _ phase_a
        ∙ keys-assign "phases_done" list fs _ i.has_phases_done in
      exact-check_state (assign "hash" h c)
        (subst (λ (ks : List String). all (λ k. member k state_keys) ks ≡ true) (sym same) i.known)
        (get-assign "hash" "version" h c
          ∙ get-assign "attempts" "version" zero' b
          ∙ get-assign "phase" "version" done a
          ∙ get-assign "phases_done" "version" list fs
          ∙ i.has_version)
        (get-assign "hash" "attempts" h c ∙ get-assign "attempts" "attempts" zero' b)
        (get-assign "hash" "phases_done" h c
          ∙ get-assign "attempts" "phases_done" zero' b
          ∙ get-assign "phase" "phases_done" done a
          ∙ get-assign "phases_done" "phases_done" list fs)
        (get-assign "hash" "phase" h c
          ∙ get-assign "attempts" "phase" zero' b
          ∙ get-assign "phase" "phase" done a)
        (get-assign "hash" "hash" h c ∙ ap (λ (k : String). some (Value.str k)) (hash-assign h c))

  verify_state-check :
      (file : Option Bytes) (state : Fields)
      → verify_state p js file ≡ ok state
      → check_state p js state ≡ ok tt
  unfolding verify_state
  verify_state-check file state h = bind_ok (or_raise file os_error) _ h λ content found h1.
      bind_ok (or_raise (js.loads content) value_error) _ h1 λ value parsed h2.
        bind_ok (members runtime_error value) _ h2 λ fs dict h3.
          bind_ok (check_state p js fs) _ h3
            λ done' passed h4. subst (λ (x : Fields). check_state p js x ≡ ok tt) (ok_inj h4) passed

  -- The state that follows `state`: the phase DONE, no attempts, the list of phases that belongs to
  -- DONE, the SHA-256 of the text of its other members, and no other member changed.
  pub record IsSuccessor (state next : Fields) : Type 0 where
    pub phase : get "phase" next ≡ some (Value.str "DONE")
    pub attempts : get "attempts" next ≡ some (Value.int (pos 0))
    pub phases_done : get "phases_done" next ≡ some (Value.arr (texts ("F00" ∷ [])))
    pub hash :
        get "hash" next
        ≡ some (Value.str (p.sha256 (js.dumps_ascii (Value.obj (without "hash" next)))))
    pub kept :
        (k : String)
        → member k ("phase" ∷ "attempts" ∷ "phases_done" ∷ "hash" ∷ []) ≡ false
        → get k next ≡ get k state

  -- What one call of `advance_state` has done: nothing to the file, and it raised; or the step from F00.
  pub data Advance (anchor : Text) (tree : Tree) (file : Option Bytes) (o : Result Fields)
      (file' : Option Bytes) : Type 0 where
    stays : (e : Error) → o ≡ err e → file' ≡ file → Advance anchor tree file o file'
    advances :
        (state next : Fields)
        → verify_protected_tree p anchor tree ≡ ok tt
        → verify_state p js file ≡ ok state
        → get "phase" state ≡ some (Value.str "F00")
        → file' ≡ some (js.dump_indented (Value.obj next))
        → IsSuccessor state next
        → check_state p js next ≡ ok tt
        → o ≡ verify_state p js file'
        → Advance anchor tree file o file'

  advanced-IsSuccessor : (state : Fields) → IsSuccessor state (advanced p js state)
  unfolding advanced compute_state_hash
  advanced-IsSuccessor state =
      let list = Value.arr (texts ("F00" ∷ [])) in
      let done = Value.str "DONE" in
      let zero' = Value.int (pos 0) in
      let a = assign "phases_done" list state in
      let b = assign "phase" done a in
      let c = assign "attempts" zero' b in
      let h = Value.str (compute_state_hash p js c) in
      record {
        phase =
            get-assign "hash" "phase" h c
            ∙ get-assign "attempts" "phase" zero' b
            ∙ get-assign "phase" "phase" done a;
        attempts = get-assign "hash" "attempts" h c ∙ get-assign "attempts" "attempts" zero' b;
        phases_done =
            get-assign "hash" "phases_done" h c
            ∙ get-assign "attempts" "phases_done" zero' b
            ∙ get-assign "phase" "phases_done" done a
            ∙ get-assign "phases_done" "phases_done" list state;
        hash =
            get-assign "hash" "hash" h c
            ∙ ap (λ (k : String). some (Value.str k)) (hash-assign h c);
        kept = λ k other. ground (
          arith,
          other,
          get-assign "hash" k h c,
          get-assign "attempts" k zero' b,
          get-assign "phase" k done a,
          get-assign "phases_done" k list state,
          eq_iff "hash" k,
          eq_iff "attempts" k,
          eq_iff "phase" k,
          eq_iff "phases_done" k,
          eq_iff k "hash",
          eq_iff k "attempts",
          eq_iff k "phase",
          eq_iff k "phases_done",
        );
      }

  written-Advance :
      (anchor : Text) (tree : Tree) (file : Option Bytes) (o : Result Fields)
      → may_advance p js anchor tree file ≡ o
      → Advance anchor tree file (write_state p js o file).0 (write_state p js o file).1
  unfolding may_advance
  written-Advance anchor tree file (err e) h = stays e refl refl
  written-Advance anchor tree file (ok state) h =
      bind_ok (verify_protected_tree p anchor tree) _ h λ done' protected h1.
        bind_ok (verify_state p js file) _ h1 λ read verified h2.
          bind_ok (index read "phase") _ h2 λ phase_value at h3.
            guard_ok (not (is_str "F00" phase_value)) runtime_error _ h3 λ first h4.
              let same : read ≡ state = ok_inj h4 in
              let verified' = subst (λ (x : Fields). verify_state p js file ≡ ok x) same verified in
              let (phase, i) =
                check_state-IsState p js state (verify_state-check file state verified') in
              advances state (advanced p js state) protected verified'
                (subst (λ (x : Fields). get "phase" x ≡ some (Value.str "F00")) same
                  (has_str read "phase" "F00" at first))
                refl (advanced-IsSuccessor state) (advanced-check_state phase state i) refl

  -- The one step of the state machine, on every branch. A call of `advance_state` raises and leaves the
  -- file as it is; or the protected tree has passed, the file held a state that passes `verify_state` in
  -- the phase F00, and the file now holds the indented text of that state with the phase DONE, 0 attempts,
  -- F00 as the one phase done, the SHA-256 of its other members as its hash, and the version as it was.
  -- The new state passes every test of `verify_state` on the members, and the answer is that of
  -- `verify_state` on the new file.
  pub advance_state-Advance :
      (anchor : Text) (tree : Tree) (file : Option Bytes)
      → Advance anchor tree file
          (advance_state p js anchor tree file).0
          (advance_state p js anchor tree file).1
  unfolding advance_state
  advance_state-Advance anchor tree file =
      written-Advance anchor tree file (may_advance p js anchor tree file) refl
