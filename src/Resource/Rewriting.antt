-- ===== src/Resource/Rewriting.antt =====
-- `write_bound` and `append_bound` of src/mgk/resource.py: they hold to the bound content, and what
-- they leave if a write fails.
use mgk_governance_kernel.Prelude.{
  ◌≤◌, ◌≡◌, refl, sym, ◌∙◌, ap, subst, Bool, true, false, not, Option, none, some, List, [], String,
  arith, length, ltb, inl, inr, ◌⊎◌, ◌≢◌, ◌++◌,
}
use mgk_governance_kernel.Errors.{
  Error, Result, ok, err, resource, os_error, ok_inj, bind_ok, guard_ok,
}
use mgk_governance_kernel.Json.{Value, Fields, get}
use mgk_governance_kernel.Json.Access.{index, index-ok}
use mgk_governance_kernel.Platform.{Bytes, Platform}
use mgk_governance_kernel.Bindings.{is_binding, at_is, in_states, write_keys}
use mgk_governance_kernel.Resource.Files.{
  FileSystem, FilePath, Node, file, directory, symlink, special, Outcome, node_at, put_node,
  write_all, write_all-ok, write_all-torn, node_at-put_node, eq_path,
}
use mgk_governance_kernel.Resource.{
  max_resource_bytes, open_parent, read_descriptor, is_content, create_file, finish_create,
  check_write, open_bound, overwrite, finish_write, write_at, write_bound,
}
use mgk_governance_kernel.Resource.Creating.{SameTree, put_remove-SameTree}

-- No path but one has another node than before.
abbrev pub OnlyAt : FilePath → FileSystem → FileSystem → Type 0
OnlyAt q fs fs' = (r : FilePath) → eq_path q r ≡ false → node_at r fs' ≡ node_at r fs

pub put_node-OnlyAt : (q : FilePath) (n : Node) (fs : FileSystem) → OnlyAt q fs (put_node q n fs)
put_node-OnlyAt q n fs r other = rw (node_at-put_node, other) refl

module _ (p : Platform) where
  -- `q` holds a regular file with the size and the SHA-256 that the binding names as those before.
  pub record HoldsBound (q : FilePath) (b : Fields) (fs : FileSystem) (old : Bytes) : Type 0 where
    pub there : node_at q fs ≡ some (file old)
    pub bound : is_content p b "pre_size" "pre_sha256" old ≡ true
    pub small : length old ≤ max_resource_bytes

  pub open_bound-HoldsBound :
      (missing : Error) (n : Option Node) (b : Fields) (q : FilePath) (fs : FileSystem)
      (old : Bytes)
      → node_at q fs ≡ n
      → open_bound p missing n b ≡ ok old
      → HoldsBound q b fs old
  unfolding open_bound
  open_bound-HoldsBound missing none b q fs old e h = absurd (cc)
  open_bound-HoldsBound missing (some (file content)) b q fs old e h =
      bind_ok (read_descriptor content) _ h λ current read h1.
        guard_ok (ltb max_resource_bytes (length content)) resource _ read λ small h2.
          guard_ok (not (is_content p b "pre_size" "pre_sha256" current)) resource _ h1 λ bound h3.
            let first = ok_inj h2 in
            let second = ok_inj h3 in
            subst (λ (x : Bytes). HoldsBound q b fs x) second
              (subst
                (λ (x : Bytes).
                  is_content p b "pre_size" "pre_sha256" current ≡ true → HoldsBound q b fs x)
                first
                (λ same. record {
                  there = e;
                  bound =
                      subst (λ (x : Bytes). is_content p b "pre_size" "pre_sha256" x ≡ true)
                        (sym first) same;
                  small = ground arith;
                })
                (ground arith))
  open_bound-HoldsBound missing (some directory) b q fs old e h = absurd (cc)
  open_bound-HoldsBound missing (some symlink) b q fs old e h = absurd (cc)
  open_bound-HoldsBound missing (some special) b q fs old e h = absurd (cc)

  -- What `write_bound` has tested before it opens the target.
  pub record IsWritable (b : Fields) (contents : Bytes) (fs : FileSystem) (q : FilePath)
      (fresh : Bool) : Type 0 where
    pub path : Value
    pub pre_state : Value
    pub shaped : is_binding write_keys "write" b ≡ true
    pub has_pre_state : get "pre_state" b ≡ some pre_state
    pub known_state : in_states resource pre_state ≡ ok tt
    pub bound : is_content p b "post_size" "post_sha256" contents ≡ true
    pub small : length contents ≤ max_resource_bytes
    pub has_path : get "path" b ≡ some path
    pub opened : open_parent path fs ≡ ok q
    pub to_be_new : at_is b "pre_state" "absent" ≡ fresh

  check_write-ok :
      (b : Fields) (contents : Bytes) (fs : FileSystem) (q : FilePath) (fresh : Bool)
      → check_write p b contents fs ≡ ok (q, fresh)
      → IsWritable b contents fs q fresh
  unfolding check_write
  check_write-ok b contents fs q fresh h =
      guard_ok (not (is_binding write_keys "write" b)) resource _ h λ shaped h1.
        bind_ok (index b "pre_state") _ h1 λ pre at_pre h2.
          bind_ok (in_states resource pre) _ h2 λ _ known h3.
            guard_ok (ltb max_resource_bytes (length contents)) resource _ h3 λ small h4.
              guard_ok (not (is_content p b "post_size" "post_sha256" contents)) resource _ h4
                λ bound h5. bind_ok (index b "path") _ h5 λ path at_path h6.
                  bind_ok (open_parent path fs) _ h6 λ r opened h7.
                    let e = ok_inj h7 in
                    record {
                      path = path;
                      pre_state = pre;
                      shaped = ground arith;
                      has_pre_state = index-ok b "pre_state" at_pre;
                      known_state = known;
                      bound = ground arith;
                      small = ground arith;
                      has_path = index-ok b "path" at_path;
                      opened = opened ∙ ap (λ (x : FilePath × Bool). ok x.0) e;
                      to_be_new = ap (λ (x : FilePath × Bool). x.1) e;
                    }

  -- How the target was before a write that returned: absent where the binding says so, and otherwise a
  -- file with the bound content.
  abbrev pub WasBound : Bool → FilePath → Fields → FileSystem → Type 0
  WasBound true q b fs = node_at q fs ≡ none
  WasBound false q b fs = (old : Bytes) × HoldsBound q b fs old

  -- The target holds a beginning of the payload, and not all of it.
  pub record IsTorn (q : FilePath) (contents : Bytes) (fs fs' : FileSystem) : Type 0 where
    pub written : Bytes
    pub missing : Bytes
    pub split : contents ≡ written ++ missing
    pub incomplete : missing ≢ []
    pub left : fs' ≡ put_node q (file written) fs

  abbrev pub Writes : Fields → Bytes → FileSystem → Result String × FileSystem → Type 0
  Writes b contents fs (ok digest, fs') =
      (q : FilePath) × (fresh : Bool) × IsWritable b contents fs q fresh
      × WasBound fresh q b fs
      × (digest ≡ p.sha256 contents)
      × (fs' ≡ put_node q (file contents) fs)
  Writes b contents fs (err e, fs') =
      SameTree fs fs'
      ⊎ ((q : FilePath) × (old : Bytes) × IsWritable b contents fs q false
          × HoldsBound q b fs old
          × IsTorn q contents fs fs'
          × OnlyAt q fs fs')

  new-Writes :
      (n : Option Node) (outcomes : List Outcome) (q : FilePath) (b : Fields) (contents : Bytes)
      (fs : FileSystem)
      → IsWritable b contents fs q true
      → node_at q fs ≡ n
      → Writes b contents fs (create_file p n outcomes q contents fs)
  unfolding create_file
  new-Writes (some _) outcomes q b contents fs c e = inl (λ r. refl)
  new-Writes none outcomes q b contents fs c e =
      finish (write_all outcomes [] contents) (write_all-ok outcomes [] contents)
    where
      finish :
          (w : Result (Unit {0}) × Bytes)
          → (w.0 ≡ ok tt → w.1 ≡ contents)
          → Writes b contents fs (finish_create p w q contents fs)
      finish (ok _, content) done =
          (q, true, c, e, refl, ap (λ (x : Bytes). put_node q (file x) fs) (done refl))
      finish (err x, content) done = inl (put_remove-SameTree q (file content) fs e)

  old-Writes :
      (r : Result Bytes) (outcomes : List Outcome) (q : FilePath) (b : Fields) (contents : Bytes)
      (fs : FileSystem)
      → IsWritable b contents fs q false
      → open_bound p os_error (node_at q fs) b ≡ r
      → Writes b contents fs (overwrite p r outcomes q contents fs)
  old-Writes (err x) outcomes q b contents fs c e = inl (λ r. refl)
  old-Writes (ok old) outcomes q b contents fs c e =
      finish (write_all outcomes [] contents) (write_all-ok outcomes [] contents)
        (write_all-torn outcomes [] contents)
    where
      finish :
          (w : Result (Unit {0}) × Bytes)
          → (w.0 ≡ ok tt → w.1 ≡ contents)
          → ((x : Error)
              → w.0 ≡ err x
              → (front : Bytes) × (back : Bytes) × (contents ≡ front ++ back)
                × (back ≢ [])
                × (w.1 ≡ front))
          → Writes b contents fs (finish_write p w q contents fs)
      finish (ok _, content) done torn = (
        q,
        false,
        c,
        (old, open_bound-HoldsBound os_error (node_at q fs) b q fs old refl e),
        refl,
        ap (λ (x : Bytes). put_node q (file x) fs) (done refl),
      )
      finish (err x, content) done torn =
          let (front, back, split, open', same) = torn x refl in
          inr (
            q,
            old,
            c,
            open_bound-HoldsBound os_error (node_at q fs) b q fs old refl e,
            record {
              written = front;
              missing = back;
              split = split;
              incomplete = open';
              left = ap (λ (y : Bytes). put_node q (file y) fs) same;
            },
            put_node-OnlyAt q (file content) fs,
          )

  at-Writes :
      (r : Result (FilePath × Bool)) (outcomes : List Outcome) (b : Fields) (contents : Bytes)
      (fs : FileSystem)
      → check_write p b contents fs ≡ r
      → Writes b contents fs (write_at p r outcomes b contents fs)
  at-Writes (err e) outcomes b contents fs h = inl (λ r. refl)
  at-Writes (ok (q, true)) outcomes b contents fs h =
      new-Writes (node_at q fs) outcomes q b contents fs (check_write-ok b contents fs q true h)
        refl
  at-Writes (ok (q, false)) outcomes b contents fs h =
      old-Writes (open_bound p os_error (node_at q fs) b) outcomes q b contents fs
        (check_write-ok b contents fs q false h) refl

  -- If `write_bound` returns, the target was what the binding says (absent, or a file with the bound
  -- size and SHA-256), the payload has the bound size and SHA-256, and the only change is that the
  -- target is a file with exactly the payload. If it raises, every path is as it was; or the target was
  -- bound as present and was a file with the bound size and SHA-256, and it now holds a beginning of the
  -- payload that is not all of it, while every other path is as it was.
  pub write_bound-Writes :
      (outcomes : List Outcome) (b : Fields) (contents : Bytes) (fs : FileSystem)
      → Writes b contents fs (write_bound p outcomes b contents fs)
  unfolding write_bound
  write_bound-Writes outcomes b contents fs =
      at-Writes (check_write p b contents fs) outcomes b contents fs refl
