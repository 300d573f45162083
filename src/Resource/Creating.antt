-- ===== src/Resource/Creating.antt =====
-- `create_bound` and `remove_created` of src/mgk/resource.py: all or nothing, and the way back.
use mgk_governance_kernel.Prelude.{
  ◌≤◌, ◌≡◌, refl, sym, ap, subst, true, not, Option, none, some, List, [], String, arith, length,
  ltb, Bool-cases, inl, inr, &&_split,
}
use mgk_governance_kernel.Errors.{Result, ok, err, resource, bind_ok, guard_ok}
use mgk_governance_kernel.Json.{Value, Fields, get, has_exactly}
use mgk_governance_kernel.Json.Access.{index, index-ok}
use mgk_governance_kernel.Platform.{Bytes, Platform}
use mgk_governance_kernel.Bindings.{is_binding, at_is, absent_keys}
use mgk_governance_kernel.Resource.Files.{
  FileSystem, FilePath, Node, file, Outcome, node_at, put_node, remove_node, write_all,
  write_all-ok, node_at-put_node, node_at-remove_node, leads-put_node, eq_path, eq_path→eq,
  eq_path_refl,
}
use mgk_governance_kernel.Resource.{
  max_resource_bytes, int_at, open_parent, is_content, check_create, create_file, finish_create,
  create_at, create_bound, is_created, remove_created,
}
use mgk_governance_kernel.Resource.Reading.{open_parent-ok}

-- Every path has the node that it had.
abbrev pub SameTree : FileSystem → FileSystem → Type 0
SameTree fs fs' = (r : FilePath) → node_at r fs' ≡ node_at r fs

-- A node that is put where there was none and removed again has changed nothing.
pub put_remove-SameTree :
    (q : FilePath) (n : Node) (fs : FileSystem)
    → node_at q fs ≡ none
    → SameTree fs (remove_node q (put_node q n fs))
put_remove-SameTree q n fs new r = elim (Bool-cases (eq_path q r)) [
  | inl here ↦
      let e = eq_path→eq q r here in
      rw (node_at-remove_node, here) (sym (subst (λ (x : FilePath). node_at x fs ≡ none) e new))
  | inr other ↦ rw (node_at-remove_node, other, node_at-put_node, other) refl
]

module _ (p : Platform) where
  -- What `create_bound` has tested before it opens the target.
  pub record IsCreatable (b : Fields) (contents : Bytes) (fs : FileSystem) (q : FilePath)
      : Type 0 where
    pub path : Value
    pub shaped : is_binding absent_keys "absent" b ≡ true
    pub bound : is_content p b "post_size" "post_sha256" contents ≡ true
    pub small : length contents ≤ max_resource_bytes
    pub has_path : get "path" b ≡ some path
    pub opened : open_parent path fs ≡ ok q

  check_create-ok :
      (b : Fields) (contents : Bytes) (fs : FileSystem) (q : FilePath)
      → check_create p b contents fs ≡ ok q
      → IsCreatable b contents fs q
  unfolding check_create
  check_create-ok b contents fs q h =
      guard_ok (not (is_binding absent_keys "absent" b)) resource _ h λ shaped h1.
        guard_ok (not (is_content p b "post_size" "post_sha256" contents)) resource _ h1 λ bound h2.
          guard_ok (ltb max_resource_bytes (length contents)) resource _ h2 λ small h3.
            bind_ok (index b "path") _ h3 λ path at_path h4. record {
              path = path;
              shaped = ground arith;
              bound = ground arith;
              small = ground arith;
              has_path = index-ok b "path" at_path;
              opened = h4;
            }

  -- A call that returns has put the contents, and nothing else, where there was nothing; a call that
  -- raises has changed nothing.
  abbrev pub Creates : Fields → Bytes → FileSystem → Result String × FileSystem → Type 0
  Creates b contents fs (ok digest, fs') =
      (q : FilePath) × IsCreatable b contents fs q
      × (node_at q fs ≡ none)
      × (digest ≡ p.sha256 contents)
      × (fs' ≡ put_node q (file contents) fs)
  Creates b contents fs (err e, fs') = SameTree fs fs'

  finish-Creates :
      (w : Result (Unit {0}) × Bytes) (q : FilePath) (b : Fields) (contents : Bytes)
      (fs : FileSystem)
      → IsCreatable b contents fs q
      → node_at q fs ≡ none
      → (w.0 ≡ ok tt → w.1 ≡ contents)
      → Creates b contents fs (finish_create p w q contents fs)
  finish-Creates (ok _, content) q b contents fs c new done =
      (q, c, new, refl, ap (λ (x : Bytes). put_node q (file x) fs) (done refl))
  finish-Creates (err e, content) q b contents fs c new done =
      put_remove-SameTree q (file content) fs new

  pub create_file-Creates :
      (n : Option Node) (outcomes : List Outcome) (q : FilePath) (b : Fields) (contents : Bytes)
      (fs : FileSystem)
      → IsCreatable b contents fs q
      → node_at q fs ≡ n
      → Creates b contents fs (create_file p n outcomes q contents fs)
  unfolding create_file
  create_file-Creates (some _) outcomes q b contents fs c e = λ r. refl
  create_file-Creates none outcomes q b contents fs c e =
      finish-Creates (write_all outcomes [] contents) q b contents fs c e
        (write_all-ok outcomes [] contents)

  at-Creates :
      (r : Result FilePath) (outcomes : List Outcome) (b : Fields) (contents : Bytes)
      (fs : FileSystem)
      → check_create p b contents fs ≡ r
      → Creates b contents fs (create_at p r outcomes contents fs)
  at-Creates (err e) outcomes b contents fs h = λ r. refl
  at-Creates (ok q) outcomes b contents fs h =
      create_file-Creates (node_at q fs) outcomes q b contents fs
        (check_create-ok b contents fs q h) refl

  -- `create_bound` is all or nothing, whatever the calls of `os.write` do. If it returns, the target did
  -- not exist, its parent directories did, the payload has the size and the SHA-256 of the binding, and
  -- the only change is a file with exactly the payload. If it raises, every path is as it was.
  pub create_bound-Creates :
      (outcomes : List Outcome) (b : Fields) (contents : Bytes) (fs : FileSystem)
      → Creates b contents fs (create_bound p outcomes b contents fs)
  unfolding create_bound
  create_bound-Creates outcomes b contents fs =
      at-Creates (check_create p b contents fs) outcomes b contents fs refl

  open_parent-put :
      (path : Value) (fs : FileSystem) (q : FilePath) (n : Node)
      → open_parent path fs ≡ ok q
      → open_parent path (put_node q n fs) ≡ ok q
  unfolding open_parent
  open_parent-put path fs q n h =
      let (parsed, reached) = open_parent-ok path fs q h in
      rw (parsed, leads-put_node [] q n fs, reached) refl

  is_created_runs :
      (contents : Bytes) (b : Fields) (digest : String)
      → length contents ≤ max_resource_bytes
      → is_content p b "post_size" "post_sha256" contents ≡ true
      → is_created p (some (file contents)) b digest ≡ ok true
  unfolding is_created
  is_created_runs contents b digest small bound = ground arith

  remove_created_runs :
      (b : Fields) (path : Value) (digest : String) (q : FilePath) (fs : FileSystem)
      → at_is b "state" "absent" ≡ true
      → at_is b "post_sha256" digest ≡ true
      → get "path" b ≡ some path
      → open_parent path fs ≡ ok q
      → is_created p (node_at q fs) b digest ≡ ok true
      → remove_created p b digest fs ≡ (ok true, remove_node q fs)
  unfolding remove_created
  remove_created_runs b path digest q fs state sha at_path opened same =
      rw (state, sha, at_path, opened, same) refl

  -- The rollback of the executor: after a `create_bound` that returned, `remove_created` with the same
  -- binding and the digest that came back removes the file, and every path is as it was before.
  pub create_then_remove :
      (outcomes : List Outcome) (b : Fields) (contents : Bytes) (fs fs' : FileSystem)
      (digest : String)
      → create_bound p outcomes b contents fs ≡ (ok digest, fs')
      → (fs'' : FileSystem) × (remove_created p b digest fs' ≡ (ok true, fs'')) × SameTree fs fs''
  create_then_remove outcomes b contents fs fs' digest h =
      let (q, c, new, hashed, e) =
        subst (Creates b contents fs) h (create_bound-Creates outcomes b contents fs) in
      let made = put_node q (file contents) fs in
      let (_, state) = &&_split (has_exactly absent_keys b) (at_is b "state" "absent") c.shaped in
      let (_, sha) =
        &&_split (int_at b "post_size" (length contents))
          (at_is b "post_sha256" (p.sha256 contents)) c.bound in
      let there : node_at q made ≡ some (file contents) =
        rw (node_at-put_node, eq_path_refl) refl in
      let created =
        subst (λ (n : Option Node). is_created p n b digest ≡ ok true) (sym there)
          (is_created_runs contents b digest c.small c.bound) in
      (
        remove_node q made,
        rw e (
            remove_created_runs b c.path digest q made state (rw hashed sha) c.has_path
              (open_parent-put c.path fs q (file contents) c.opened) created),
        put_remove-SameTree q (file contents) fs new,
      )
