-- ===== src/Tcb/State/Members.antt =====
-- What `verify_state` of orchestrator/tcb/core.py establishes of the members of a state.
use mgk_governance_kernel.Prelude.{
  ◌≡◌, refl, sym, ap, ◌∙◌, true, false, not, some, List, [], ◌∷◌, String, str_eq, eq_iff, member,
  all, arith, if◌then◌else◌, &&_split,
}
use mgk_governance_kernel.Prelude.Int.{ℤ, pos, ltb_ℤ, eqb_ℤ, eqb_ℤ_iff}
use mgk_governance_kernel.Errors.{
  ok, runtime_error, bind_ok, guard_ok, or_raise, or_raise_ok, raise_if-eq-ok,
}
use mgk_governance_kernel.Json.{Value, Fields, get, keys, without, has_exactly, is_str}
use mgk_governance_kernel.Json.Access.{index, index-ok, integer, integer-ok, text, text-ok, has_str}
use mgk_governance_kernel.Platform.{Platform}
use mgk_governance_kernel.Tcb.State.{
  Json, state_keys, text_list, has_repeat, same_texts, expected_done, assign, compute_state_hash,
  check_state,
}

pub get-assign :
    (k j : String) (v : Value) (fs : Fields)
    → get j (assign k v fs) ≡ (if str_eq k j then some v else get j fs)
unfolding get assign
get-assign k j v Fields.end = ground arith
get-assign k j v (Fields.field i w fs) =
    ground (arith, eq_iff i k, eq_iff i j, eq_iff k j, get-assign k j v fs)

pub without-assign :
    (k : String) (v : Value) (fs : Fields) → without k (assign k v fs) ≡ without k fs
unfolding without assign
without-assign k v Fields.end = ground (arith, eq_iff k k)
without-assign k v (Fields.field i w fs) = ground (arith, eq_iff i k, without-assign k v fs)

pub keys-assign :
    (k : String) (v : Value) (fs : Fields) (w : Value)
    → get k fs ≡ some w
    → keys (assign k v fs) ≡ keys fs
unfolding get assign
keys-assign k v Fields.end w h = cc
keys-assign k v (Fields.field i u fs) w h = ground (arith, eq_iff i k, keys-assign k v fs w)

-- The members of a state that passes the tests.
pub record IsState (p : Platform) (js : Json) (phase : String) (fs : Fields) : Type 0 where
  pub attempts : ℤ
  pub phases_done : Value
  pub known : all (λ k. member k state_keys) (keys fs) ≡ true
  pub has_version : get "version" fs ≡ some (Value.int (pos 1))
  pub has_attempts : get "attempts" fs ≡ some (Value.int attempts)
  pub counted : ltb_ℤ attempts (pos 0) ≡ false
  pub has_phases_done : get "phases_done" fs ≡ some phases_done
  pub has_phase : get "phase" fs ≡ some (Value.str phase)
  pub expected :
      (phases : List String) × (text_list phases_done ≡ ok phases)
      × (expected_done phase ≡ some phases)
  pub hashed : get "hash" fs ≡ some (Value.str (compute_state_hash p js fs))

same_texts→eq : (a b : List String) → same_texts a b ≡ true → a ≡ b
same_texts→eq [] [] h = refl
same_texts→eq [] (u ∷ us) h = cc
same_texts→eq (t ∷ ts) [] h = cc
same_texts→eq (t ∷ ts) (u ∷ us) h = ground (arith, eq_iff t u, same_texts→eq ts us)

has_exactly-known :
    (ks : List String) (fs : Fields)
    → has_exactly ks fs ≡ true
    → all (λ k. member k ks) (keys fs) ≡ true
unfolding has_exactly
has_exactly-known ks fs h = (&&_split _ _ h).1

module _ (p : Platform) (js : Json) where
  pub check_state-IsState :
      (fs : Fields) {u : Unit {0}}
      → check_state p js fs ≡ ok u
      → (phase : String) × IsState p js phase fs
  unfolding check_state
  check_state-IsState fs h =
      guard_ok (not (has_exactly state_keys fs)) runtime_error _ h λ exact h1.
        bind_ok (index fs "version") _ h1 λ version_value at_version h2.
          bind_ok (integer runtime_error version_value) _ h2 λ version is_version h3.
            guard_ok (not (eqb_ℤ version (pos 1))) runtime_error _ h3 λ one h4.
              bind_ok (index fs "attempts") _ h4 λ attempts_value at_attempts h5.
                bind_ok (integer runtime_error attempts_value) _ h5 λ attempts is_attempts h6.
                  guard_ok (ltb_ℤ attempts (pos 0)) runtime_error _ h6 λ counted h7.
                    bind_ok (index fs "phases_done") _ h7 λ done_value at_done h8.
                      bind_ok (text_list done_value) _ h8 λ phases is_done h9.
                        guard_ok (has_repeat phases) runtime_error _ h9 λ once h10.
                          bind_ok (index fs "phase") _ h10 λ phase_value at_phase h11.
                            bind_ok (text runtime_error phase_value) _ h11 λ phase is_phase h12.
                              bind_ok (or_raise (expected_done phase) runtime_error) _ h12
                                λ expected found h13.
                                  guard_ok (not (same_texts phases expected)) runtime_error _ h13
                                    λ same h14. bind_ok (index fs "hash") _ h14 λ hash at_hash h15.
                                      (
                                        phase,
                                        record {
                                          attempts = attempts;
                                          phases_done = done_value;
                                          known = has_exactly-known state_keys fs (ground arith);
                                          has_version =
                                              index-ok fs "version" at_version
                                              ∙ ap some (
                                                  integer-ok runtime_error version_value is_version
                                                  ∙ ap Value.int (
                                                      (eqb_ℤ_iff version (pos 1)).0
                                                        (ground arith)));
                                          has_attempts =
                                              index-ok fs "attempts" at_attempts
                                              ∙ ap some (
                                                  integer-ok runtime_error attempts_value
                                                    is_attempts);
                                          counted = counted;
                                          has_phases_done = index-ok fs "phases_done" at_done;
                                          has_phase =
                                              index-ok fs "phase" at_phase
                                              ∙ ap some
                                                  (text-ok runtime_error phase_value is_phase);
                                          expected = (
                                            phases,
                                            is_done,
                                            or_raise_ok (expected_done phase) runtime_error found
                                                  (λ e. e)
                                                ∙ ap some (
                                                    sym (
                                                      same_texts→eq phases expected
                                                        (ground arith))),
                                          );
                                          hashed =
                                              has_str fs "hash" (compute_state_hash p js fs) at_hash
                                                (raise_if-eq-ok
                                                  (not (is_str (compute_state_hash p js fs) hash))
                                                  runtime_error h15);
                                        },
                                      )
