-- ===== src/Resource/Reading.antt =====
-- What `read_bound` and `bind_present` of src/mgk/resource.py give: content that is what was bound.
use text.Mathlib.TextPositions.{eq_refl}
use mgk_governance_kernel.Prelude.{
  ◌≤◌, ◌≡◌, refl, sym, ◌∙◌, ap, subst, true, not, Option, none, some, [], String, arith, length,
  ltb,
}
use mgk_governance_kernel.Errors.{ok, resource, os_error, ok_inj, bind_ok, guard_ok}
use mgk_governance_kernel.Json.{Value, Fields, get, has_exactly}
use mgk_governance_kernel.Json.Access.{index, index-ok}
use mgk_governance_kernel.Platform.{Bytes, Platform}
use mgk_governance_kernel.Bindings.{is_binding, at_is→get, present_keys}
use mgk_governance_kernel.Resource.Paths.{parts_of}
use mgk_governance_kernel.Resource.Files.{
  FileSystem, FilePath, Node, file, directory, symlink, special, node_at, leads,
}
use mgk_governance_kernel.Resource.{
  max_resource_bytes, int_at, open_parent, open_node, open_file, bind_present, present_binding,
  read_bound, is_content,
}

-- The path is sound and every part of it but the last is a directory.
pub open_parent-ok :
    (v : Value) (fs : FileSystem) (q : FilePath)
    → open_parent v fs ≡ ok q
    → (parts_of v ≡ ok q) × (leads [] q fs ≡ true)
unfolding open_parent
open_parent-ok v fs q h = bind_ok (parts_of v) _ h λ r parsed h1.
    guard_ok (not (leads [] r fs)) os_error _ h1 λ reached h2.
      let e = ok_inj h2 in
      (
        parsed ∙ ap (λ (x : FilePath). ok x) e,
        subst (λ (x : FilePath). leads [] x fs ≡ true) e (ground arith),
      )

open_node-ok :
    (n : Option Node) (c : Bytes)
    → open_node n ≡ ok c
    → (n ≡ some (file c)) × (length c ≤ max_resource_bytes)
unfolding open_node
open_node-ok (some (file content)) c h =
    guard_ok (ltb max_resource_bytes (length content)) resource _ h λ small h1.
      subst (λ (x : Bytes). (some (file content) ≡ some (file x)) × (length x ≤ max_resource_bytes))
        (ok_inj h1) (refl, ground arith)
open_node-ok none c h = cc
open_node-ok (some directory) c h = cc
open_node-ok (some symlink) c h = cc
open_node-ok (some special) c h = cc

-- Only a regular file within the size limit is opened, below directories only: no symbolic link is
-- followed on the way or at the end.
pub open_file-ok :
    (v : Value) (fs : FileSystem) (c : Bytes)
    → open_file v fs ≡ ok c
    → (q : FilePath) × (parts_of v ≡ ok q)
      × (leads [] q fs ≡ true)
      × (node_at q fs ≡ some (file c))
      × (length c ≤ max_resource_bytes)
unfolding open_file
open_file-ok v fs c h = bind_ok (open_parent v fs) _ h λ q opened h1.
    let (parsed, reached) = open_parent-ok v fs q opened in
    let (there, small) = open_node-ok (node_at q fs) c h1 in (q, parsed, reached, there, small)

module _ (p : Platform) where
  -- What `read_bound` returns is the content of the regular file at the bound path at the time of the
  -- read, and it has the bound size and the bound SHA-256.
  pub read_bound-ok :
      (b : Fields) (fs : FileSystem) (c : Bytes)
      → read_bound p b fs ≡ ok c
      → (path : Value) × (q : FilePath) × (get "path" b ≡ some path)
        × (parts_of path ≡ ok q)
        × (leads [] q fs ≡ true)
        × (node_at q fs ≡ some (file c))
        × (length c ≤ max_resource_bytes)
        × (get "sha256" b ≡ some (Value.str (p.sha256 c)))
        × (int_at b "size" (length c) ≡ true)
  unfolding read_bound
  read_bound-ok b fs c h = guard_ok (not (is_binding present_keys "present" b)) resource _ h λ _ h1.
      bind_ok (index b "path") _ h1 λ path at_path h2.
        bind_ok (open_file path fs) _ h2 λ content opened h3.
          guard_ok (not (is_content p b "size" "sha256" content)) resource _ h3 λ same h4.
            let (q, parsed, reached, there, small) = open_file-ok path fs content opened in
            subst
              (λ (x : Bytes).
                (v : Value) × (r : FilePath) × (get "path" b ≡ some v)
                × (parts_of v ≡ ok r)
                × (leads [] r fs ≡ true)
                × (node_at r fs ≡ some (file x))
                × (length x ≤ max_resource_bytes)
                × (get "sha256" b ≡ some (Value.str (p.sha256 x)))
                × (int_at b "size" (length x) ≡ true))
              (ok_inj h4)
              (
                path,
                q,
                index-ok b "path" at_path,
                parsed,
                reached,
                there,
                small,
                at_is→get b "sha256" (p.sha256 content) (ground arith),
                ground arith,
              )

  present_fits :
      (relative : String) (c : Bytes)
      → (is_binding present_keys "present" (present_binding p relative c) ≡ true)
        × (get "path" (present_binding p relative c) ≡ some (Value.str relative))
        × (is_content p (present_binding p relative c) "size" "sha256" c ≡ true)
  unfolding get has_exactly
  present_fits relative c = (refl, refl, ground (arith, eq_refl (p.sha256 c)))

  read_bound_runs :
      (b : Fields) (path : Value) (fs : FileSystem) (c : Bytes)
      → is_binding present_keys "present" b ≡ true
      → get "path" b ≡ some path
      → open_file path fs ≡ ok c
      → is_content p b "size" "sha256" c ≡ true
      → read_bound p b fs ≡ ok c
  unfolding read_bound
  read_bound_runs b path fs c shape at_path opened same = rw (shape, at_path, opened, same) refl

  -- A file that was bound by `bind_present` is read by `read_bound` with the content that was bound, as
  -- long as the tree is as it was.
  pub read_bound-bind_present :
      (relative : String) (fs : FileSystem) (b : Fields)
      → bind_present p relative fs ≡ ok b
      → (c : Bytes) × (b ≡ present_binding p relative c) × (read_bound p b fs ≡ ok c)
  unfolding bind_present
  read_bound-bind_present relative fs b h =
      bind_ok (open_file (Value.str relative) fs) _ h λ c opened h1.
        let e = sym (ok_inj h1) in
        let (shape, at_path, same) = present_fits relative c in
        (
          c,
          e,
          rw e (
              read_bound_runs (present_binding p relative c) (Value.str relative) fs c shape at_path
                opened same),
        )
