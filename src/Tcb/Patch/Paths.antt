-- ===== src/Tcb/Patch/Paths.antt =====
-- Which changed paths `verify_patch` of orchestrator/tcb/verify_patch.py lets through.
use mgk_governance_kernel.Prelude.{
  ◌≡◌, ◌≢◌, ◌⊎◌, inl, inr, refl, sym, ap, subst, ◌∙◌, Bool, Bool-cases, true, false, not, Option,
  some, List, [], ◌∷◌, All, all, any, arith, ◌==◌, is_empty, ltb,
}
use mgk_governance_kernel.Errors.{
  ok, runtime_error, value_error, ok_inj, bind_ok, guard_ok, raise_if-eq-ok, or_raise, or_raise_ok,
}
use mgk_governance_kernel.Platform.{Bytes, Platform}
use mgk_governance_kernel.Canonical.{eq_bytes, eq_bytes→eq}
use mgk_governance_kernel.Resource.Files.{eq_bytes_refl}
use mgk_governance_kernel.Tcb.Texts.{Text, path_parts, is_absolute, dot_dot, split_once}
use mgk_governance_kernel.Tcb.Contracts.{Reader, Scalar, text, null, bool, int, Entry, members_of}
use mgk_governance_kernel.Tcb.State.{Json}
use mgk_governance_kernel.Tcb.Patch.{
  Git, is_safe_path, records_of, regular_mode, is_allowed, only_record, first_word, mode_in,
  is_forbidden, check_path, check_paths,
}

-- A path that stays below the place where it starts.
pub record IsSafePath (t : Text) : Type 0 where
  pub some_part : path_parts t ≢ []
  pub relative : (rest : Text) → t ≢ 47 ∷ rest
  pub no_backslash : All (λ c. c ≢ 92) t
  pub no_dot_dot : All (λ part. part ≢ dot_dot) (path_parts t)

no_backslash-All : (t : Text) → any (λ c. c == 92) t ≡ false → All (λ c. c ≢ 92) t
no_backslash-All [] h = tt
no_backslash-All (c ∷ cs) h = ((λ e. ground (arith, e)), no_backslash-All cs (ground arith))

differs : (a b : Bytes) → not (eq_bytes a b) ≡ true → a ≢ b
differs a b h e = cc (subst (λ (x : Bytes). eq_bytes a x ≡ true) e (eq_bytes_refl a), h)

no_dot_dot-All :
    (ts : List Text)
    → all (λ part. not (eq_bytes part dot_dot)) ts ≡ true
    → All (λ part. part ≢ dot_dot) ts
no_dot_dot-All [] h = tt
no_dot_dot-All (t ∷ ts) h = (differs t dot_dot (ground arith), no_dot_dot-All ts (ground arith))

is_absolute-slash : (t rest : Text) → t ≡ 47 ∷ rest → is_absolute t ≡ true
is_absolute-slash [] rest e = cc
is_absolute-slash (c ∷ cs) rest e = ground (arith, e)

not_empty : (ts : List Text) → ts ≡ [] → is_empty ts ≡ false → ⊥
not_empty [] e h = cc
not_empty (t ∷ ts) e h = cc

from_not : (b : Bool) → not b ≡ true → b ≡ false
from_not true h = cc
from_not false h = refl

is_safe_path-IsSafePath : (t : Text) → is_safe_path t ≡ true → IsSafePath t
unfolding is_safe_path
is_safe_path-IsSafePath t h = record {
  some_part = λ e. not_empty (path_parts t) e (ground arith);
  relative = λ rest e. cc (is_absolute-slash t rest e, from_not (is_absolute t) (ground arith));
  no_backslash = no_backslash-All t (ground arith);
  no_dot_dot = no_dot_dot-All (path_parts t) (ground arith);
}

module _ (p : Platform) (y : Reader) (js : Json) (matches : Text → Text → Bool) where
  -- One of the patterns is a text that the path matches.
  pub data IsMatched (t : Text) : List Scalar → Type 0 where
    matched_here :
        {pattern' : Text} {rest : List Scalar}
        → matches t pattern' ≡ true
        → IsMatched t (text pattern' ∷ rest)
    matched_later :
        {first : Scalar} {rest : List Scalar} → IsMatched t rest → IsMatched t (first ∷ rest)

  -- The answer of git on the path names it, once, with the mode of an ordinary file.
  pub record IsOrdinary (t : Text) (answer : Bytes) : Type 0 where
    pub only : Bytes
    pub header : Bytes
    pub staged_path : Bytes
    pub single : records_of answer ≡ only ∷ []
    pub halved : split_once 9 only ≡ some (header, staged_path)
    pub named : y.utf8 staged_path ≡ some t
    pub mode : first_word p y js matches header ≡ regular_mode

  -- A changed path that may change: safe, matched by a pattern of the phase, and deleted or a regular
  -- file of mode 100644 in the index.
  pub record IsAllowed (git : Git) (patch : Bytes) (entry : Entry) (t : Text) : Type 0 where
    pub patterns : List Scalar
    pub answer : Bytes
    pub safe : IsSafePath t
    pub listed : members_of entry ≡ ok patterns
    pub matched : IsMatched t patterns
    pub staged : git.staged patch t ≡ ok answer
    pub ordinary : (answer ≡ []) ⊎ IsOrdinary t answer

  is_allowed-IsMatched :
      (t : Text) (vs : List Scalar) → is_allowed p y js matches t vs ≡ ok true → IsMatched t vs
  unfolding is_allowed
  is_allowed-IsMatched t [] h = cc
  is_allowed-IsMatched t (text u ∷ rest) h = elim (Bool-cases (matches t u)) [
    | inl found ↦ matched_here found
    | inr other ↦ matched_later (is_allowed-IsMatched t rest (rw other at h))
  ]
  is_allowed-IsMatched t (null ∷ rest) h = absurd (cc)
  is_allowed-IsMatched t (bool b ∷ rest) h = absurd (cc)
  is_allowed-IsMatched t (int i ∷ rest) h = absurd (cc)

  only_record-ok :
      (rs : List Bytes) {r : Bytes} → only_record p y js matches rs ≡ ok r → rs ≡ r ∷ []
  only_record-ok [] h = cc
  only_record-ok (a ∷ []) h = ap (λ (x : Bytes). x ∷ []) (ok_inj h)
  only_record-ok (a ∷ b ∷ rs) h = cc

  some_inj : {a b : Bytes} → some a ≡ some b → a ≡ b
  some_inj h = cc

  mode_in-IsOrdinary :
      (t : Text) (answer : Bytes) (mode : Option Bytes)
      → mode_in p y js matches t answer ≡ ok mode
      → is_forbidden p y js matches mode ≡ false
      → (answer ≡ []) ⊎ IsOrdinary t answer
  unfolding mode_in
  mode_in-IsOrdinary t [] mode h allowed = inl refl
  mode_in-IsOrdinary t (c ∷ cs) mode h allowed = inr (
      bind_ok (only_record p y js matches (records_of (c ∷ cs))) _ h λ only single h1.
        bind_ok (or_raise (split_once 9 only) value_error) _ h1 λ halves halved h2.
          bind_ok (or_raise (y.utf8 halves.1) value_error) _ h2 λ staged_path named h3.
            guard_ok (not (eq_bytes staged_path t)) runtime_error _ h3 λ same h4.
              guard_ok (any (λ d. ltb 127 d) (first_word p y js matches halves.0)) value_error _ h4
                λ _ h5.
                  let forbidden =
                    subst (λ (x : Option Bytes). is_forbidden p y js matches x ≡ false)
                      (sym (ok_inj h5)) allowed in
                  record {
                    only = only;
                    header = halves.0;
                    staged_path = halves.1;
                    single = only_record-ok (records_of (c ∷ cs)) single;
                    halved = or_raise_ok (split_once 9 only) value_error halved (λ q. q);
                    named =
                        or_raise_ok (y.utf8 halves.1) value_error named (λ q. q)
                        ∙ ap some (eq_bytes→eq staged_path t (ground arith));
                    mode =
                        eq_bytes→eq (first_word p y js matches halves.0) regular_mode
                          (ground arith);
                  })

  check_path-IsAllowed :
      (git : Git) (patch : Bytes) (entry : Entry) (t : Text) {u : Unit {0}}
      → check_path p y js matches git patch entry t ≡ ok u
      → IsAllowed git patch entry t
  unfolding check_path
  check_path-IsAllowed git patch entry t h =
      guard_ok (not (is_safe_path t)) runtime_error _ h λ safe h1.
        bind_ok (members_of entry) _ h1 λ patterns listed h2.
          bind_ok (is_allowed p y js matches t patterns) _ h2 λ allowed found h3.
            guard_ok (not allowed) runtime_error _ h3 λ yes h4.
              bind_ok (git.staged patch t) _ h4 λ answer staged h5.
                bind_ok (mode_in p y js matches t answer) _ h5 λ mode read h6. record {
                  patterns = patterns;
                  answer = answer;
                  safe = is_safe_path-IsSafePath t (ground arith);
                  listed = listed;
                  matched =
                      is_allowed-IsMatched t patterns
                        (found ∙ ap (λ (b : Bool). ok b) (ground arith));
                  staged = staged;
                  ordinary =
                      mode_in-IsOrdinary t answer mode read
                        (raise_if-eq-ok (is_forbidden p y js matches mode) runtime_error h6);
                }

  pub check_paths-IsAllowed :
      (git : Git) (patch : Bytes) (entry : Entry) (ts : List Text) {u : Unit {0}}
      → check_paths p y js matches git patch entry ts ≡ ok u
      → All (IsAllowed git patch entry) ts
  unfolding check_paths
  check_paths-IsAllowed git patch entry [] h = tt
  check_paths-IsAllowed git patch entry (t ∷ ts) h =
      bind_ok (check_path p y js matches git patch entry t) _ h λ done' one h1.
        (check_path-IsAllowed git patch entry t one, check_paths-IsAllowed git patch entry ts h1)
