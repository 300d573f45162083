-- ===== src/Tcb/Patch/Admitted.antt =====
-- What `verify_patch` of orchestrator/tcb/verify_patch.py admits, and in which state it leaves the index.
use mgk_governance_kernel.Prelude.{
  ◌≤◌, ◌≡◌, ◌⊎◌, inl, inr, refl, ap, subst, ◌∙◌, Bool, Bool-cases, true, false, ◌||◌, not, Option,
  some, List, [], ◌∷◌, String, All, arith, codes, ltb, length, is_empty, if◌then◌else◌,
}
use mgk_governance_kernel.Errors.{Error, Result, ok, err, runtime_error, ok_inj, bind_ok, guard_ok}
use mgk_governance_kernel.Json.{Value, Fields, get}
use mgk_governance_kernel.Json.Access.{index, text as text_value, index-ok, text-ok}
use mgk_governance_kernel.Platform.{Bytes, Platform}
use mgk_governance_kernel.Tcb.Texts.{Text, distinct}
use mgk_governance_kernel.Tcb.Trust.{Tree, TreeEntry, regular, regular_at, verify_protected_tree}
use mgk_governance_kernel.Tcb.Trust.Protected.{regular_at-ok}
use mgk_governance_kernel.Tcb.Contracts.{Reader, Entry, Field, field_at}
use mgk_governance_kernel.Tcb.Phases.{load_phase}
use mgk_governance_kernel.Tcb.State.{Json, verify_state}
use mgk_governance_kernel.Tcb.Patch.Paths.{IsAllowed, check_paths-IsAllowed}
use mgk_governance_kernel.Tcb.Patch.{
  max_patch_bytes, max_changed_paths, Git, Index, at_head, patched, reset, records_of, decode_all,
  check_index, apply_then, try_patch, prepare_patch, after_preparation, verify_patch,
}

size_of :
    (patch : Bytes)
    → is_empty patch ≡ false
    → ltb max_patch_bytes (length patch) ≡ false
    → (1 ≤ length patch) × (length patch ≤ 1048576)
size_of [] filled small = absurd (cc)
size_of (c ∷ cs) filled small = ground arith

count_of :
    (paths : List Text)
    → (is_empty paths || (ltb max_changed_paths (length paths) || not (distinct paths))) ≡ false
    → (1 ≤ length paths) × (length paths ≤ 32) × (distinct paths ≡ true)
count_of [] h = absurd (cc)
count_of (t ∷ ts) h = ground arith

module _ (p : Platform) (y : Reader) (js : Json) (matches : Text → Text → Bool) where
  -- What has held where a patch is admitted.
  pub record IsAdmitted (anchor : Text) (tree : Tree) (file : Option Bytes) (e : TreeEntry)
      (git : Git) (patch : Bytes) : Type 0 where
    pub state : Fields
    pub phase_id : String
    pub phase : List Field
    pub entry : Entry
    pub raw : Bytes
    pub paths : List Text
    pub protected : verify_protected_tree p anchor tree ≡ ok tt
    pub verified : verify_state p js file ≡ ok state
    pub in_phase : get "phase" state ≡ some (Value.str phase_id)
    pub loaded : load_phase y tree (codes phase_id) ≡ ok phase
    pub allowed : field_at (codes "allowed_paths") phase ≡ ok entry
    pub is_file : e ≡ regular patch
    pub sized : (1 ≤ length patch) × (length patch ≤ 1048576)
    pub clean : git.is_dirty ≡ false
    pub applies : git.applies patch ≡ true
    pub applied : git.applied patch ≡ ok tt
    pub changed : git.changed patch ≡ ok raw
    pub decoded : decode_all p y js matches (records_of raw) ≡ ok paths
    pub counted : (1 ≤ length paths) × (length paths ≤ 32) × (distinct paths ≡ true)
    pub each : All (IsAllowed p y js matches git patch entry) paths

  module _ (anchor : Text) (tree : Tree) (file : Option Bytes) (e : TreeEntry) (git : Git) where
    -- The facts of the statements before the try.
    prepare_patch-ok :
        {C : Type 0} (entry : Entry) (patch : Bytes)
        → prepare_patch p y js matches anchor tree file e git ≡ ok (entry, patch)
        → ((state : Fields) (phase_id : String) (phase : List Field)
            → verify_protected_tree p anchor tree ≡ ok tt
            → verify_state p js file ≡ ok state
            → get "phase" state ≡ some (Value.str phase_id)
            → load_phase y tree (codes phase_id) ≡ ok phase
            → field_at (codes "allowed_paths") phase ≡ ok entry
            → e ≡ regular patch
            → (1 ≤ length patch) × (length patch ≤ 1048576)
            → git.is_dirty ≡ false
            → C)
        → C
    unfolding prepare_patch
    prepare_patch-ok entry patch h k =
        bind_ok (verify_protected_tree p anchor tree) _ h λ done' protected h1.
          bind_ok (verify_state p js file) _ h1 λ state verified h2.
            bind_ok (index state "phase") _ h2 λ phase_value at h3.
              bind_ok (text_value runtime_error phase_value) _ h3 λ phase_id named h4.
                bind_ok (load_phase y tree (codes phase_id)) _ h4 λ phase loaded h5.
                  bind_ok (field_at (codes "allowed_paths") phase) _ h5 λ entry' allowed h6.
                    bind_ok (regular_at e) _ h6 λ patch' is_file h7.
                      guard_ok (is_empty patch') runtime_error _ h7 λ filled h8.
                        guard_ok (ltb max_patch_bytes (length patch')) runtime_error _ h8
                          λ small h9. guard_ok git.is_dirty runtime_error _ h9 λ clean h10.
                            let same = ok_inj h10 in
                            let patches : patch' ≡ patch = ap (λ (x : Entry × Bytes). x.1) same in
                            let entries : entry' ≡ entry = ap (λ (x : Entry × Bytes). x.0) same in
                            k state phase_id phase protected verified
                              (index-ok state "phase" at
                                ∙ ap some (text-ok runtime_error phase_value named))
                              loaded
                              (subst (λ (x : Entry). field_at (codes "allowed_paths") phase ≡ ok x)
                                entries allowed)
                              (subst (λ (x : Bytes). e ≡ regular x) patches
                                (regular_at-ok e is_file))
                              (subst (λ (x : Bytes). (1 ≤ length x) × (length x ≤ 1048576)) patches
                                (size_of patch' filled small))
                              clean

    admitted :
        (entry : Entry) (patch : Bytes) {u : Unit {0}}
        → prepare_patch p y js matches anchor tree file e git ≡ ok (entry, patch)
        → git.applies patch ≡ true
        → git.applied patch ≡ ok tt
        → check_index p y js matches git patch entry ≡ ok u
        → IsAdmitted anchor tree file e git patch
    unfolding check_index
    admitted entry patch prepared fits applied h =
        prepare_patch-ok entry patch prepared
          λ state phase_id phase protected verified in_phase loaded allowed is_file sized clean.
            bind_ok (git.changed patch) _ h λ raw changed h1.
              bind_ok (decode_all p y js matches (records_of raw)) _ h1 λ paths decoded h2.
                guard_ok
                  (is_empty paths || (ltb max_changed_paths (length paths) || not (distinct paths)))
                  runtime_error _ h2
                  λ counted h3. record {
                    state = state;
                    phase_id = phase_id;
                    phase = phase;
                    entry = entry;
                    raw = raw;
                    paths = paths;
                    protected = protected;
                    verified = verified;
                    in_phase = in_phase;
                    loaded = loaded;
                    allowed = allowed;
                    is_file = is_file;
                    sized = sized;
                    clean = clean;
                    applies = fits;
                    applied = applied;
                    changed = changed;
                    decoded = decoded;
                    counted = count_of paths counted;
                    each = check_paths-IsAllowed p y js matches git patch entry paths h3;
                  }

    -- What a call has answered, and the index that it leaves: that of HEAD where the reset succeeds, and
    -- the one before the reset where it fails.
    abbrev pub Judges : Result (Unit {0}) × Index → Type 0
    Judges (ok _, index') =
        (patch : Bytes) × IsAdmitted anchor tree file e git patch
        × (index' ≡ (if git.resets then at_head else patched patch))
    Judges (err x, index') =
        (index' ≡ git.index_before)
        ⊎ (((git.is_dirty ≡ false) × (git.resets ≡ true) × (index' ≡ at_head))
            ⊎ ((patch : Bytes) × (e ≡ regular patch)
                × (git.is_dirty ≡ false)
                × (git.applied patch ≡ ok tt)
                × (git.resets ≡ false)
                × (index' ≡ patched patch)))

    clean_file :
        (entry : Entry) (patch : Bytes)
        → prepare_patch p y js matches anchor tree file e git ≡ ok (entry, patch)
        → (git.is_dirty ≡ false) × (e ≡ regular patch)
    clean_file entry patch h =
        prepare_patch-ok entry patch h λ _ _ _ _ _ _ _ _ is_file _ clean. (clean, is_file)

    undone : (x : Error) → git.is_dirty ≡ false → Judges (err x, reset git git.index_before)
    undone x clean = elim (Bool-cases git.resets) [
      | inl works ↦ inr (inl (clean, works, rw works refl))
      | inr fails ↦ inl (rw fails refl)
    ]

    checked-Judges :
        (entry : Entry) (patch : Bytes) (o : Result (Unit {0}))
        → prepare_patch p y js matches anchor tree file e git ≡ ok (entry, patch)
        → git.applies patch ≡ true
        → git.applied patch ≡ ok tt
        → check_index p y js matches git patch entry ≡ o
        → Judges (o, reset git (patched patch))
    checked-Judges entry patch (ok _) prepared fits applied h =
        (patch, admitted entry patch prepared fits applied h, refl)
    checked-Judges entry patch (err x) prepared fits applied h =
        let (clean, is_file) = clean_file entry patch prepared in
        elim (Bool-cases git.resets) [
          | inl works ↦ inr (inl (clean, works, rw works refl))
          | inr fails ↦ inr (inr (patch, is_file, clean, applied, fails, rw fails refl))
        ]

    applied-Judges :
        (entry : Entry) (patch : Bytes) (o : Result (Unit {0}))
        → prepare_patch p y js matches anchor tree file e git ≡ ok (entry, patch)
        → git.applies patch ≡ true
        → git.applied patch ≡ o
        → Judges (
          (apply_then p y js matches git patch entry o).0,
          reset git (apply_then p y js matches git patch entry o).1,
        )
    applied-Judges entry patch (err x) prepared fits h =
        undone x (clean_file entry patch prepared).0
    applied-Judges entry patch (ok _) prepared fits h =
        checked-Judges entry patch (check_index p y js matches git patch entry) prepared fits h refl

    tried-Judges :
        (entry : Entry) (patch : Bytes) (b : Bool)
        → prepare_patch p y js matches anchor tree file e git ≡ ok (entry, patch)
        → git.applies patch ≡ b
        → Judges (try_patch p y js matches git patch entry)
    unfolding try_patch
    tried-Judges entry patch true prepared fits =
        rw fits (applied-Judges entry patch (git.applied patch) prepared fits refl)
    tried-Judges entry patch false prepared fits =
        rw fits (undone runtime_error (clean_file entry patch prepared).0)

    prepared-Judges :
        (o : Result (Entry × Bytes))
        → prepare_patch p y js matches anchor tree file e git ≡ o
        → Judges (after_preparation p y js matches git o)
    prepared-Judges (err x) h = inl refl
    prepared-Judges (ok (entry, patch)) h = tried-Judges entry patch (git.applies patch) h refl

    -- What a patch may change, and what becomes of the index, on every branch of `verify_patch`. A patch
    -- is admitted only where the protected tree and the state have passed, the patch is a regular file of
    -- 1 to 1048576 bytes that applies to an index which git calls clean, and it changes 1 to 32 different
    -- paths, each of them with a part, relative, without backslash and without a part `..`, matched by an
    -- allowed path of the phase that the state names, and either not in the index any more or there once
    -- with the mode 100644. After an admission the index is that of HEAD, or holds the patch if the reset
    -- fails. After an exception it is the index before the call, or that of HEAD where the reset succeeds,
    -- or it holds the patch where it was applied and the reset fails.
    pub verify_patch-Judges : Judges (verify_patch p y js matches anchor tree file e git)
    unfolding verify_patch
    verify_patch-Judges = prepared-Judges (prepare_patch p y js matches anchor tree file e git) refl
