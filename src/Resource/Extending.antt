-- ===== src/Resource/Extending.antt =====
-- `append_bound` of src/mgk/resource.py: the old content stays the beginning of the file.
use mathlib.Core.List.{append-nil, append_assoc}
use mgk_governance_kernel.Prelude.{
  ◌≤◌, ◌≡◌, refl, sym, ◌∙◌, ap, subst, true, not, List, [], ◌∷◌, ◌++◌, some, arith, length, ltb,
  ◌⊎◌, inl, inr, Bool-cases, ◌==◌,
}
use mgk_governance_kernel.Errors.{Result, ok, err, resource, bind_ok, guard_ok, raise_if, ◌>>=◌}
use mgk_governance_kernel.Json.{Value, Fields, get}
use mgk_governance_kernel.Json.Access.{index, index-ok}
use mgk_governance_kernel.Platform.{Bytes, Platform}
use mgk_governance_kernel.Bindings.{is_binding, append_keys}
use mgk_governance_kernel.Resource.Files.{
  FileSystem, FilePath, file, Outcome, wrote, failed, node_at, put_node, write_all, write_all-ok,
  take, drop,
}
use mgk_governance_kernel.Resource.{
  max_resource_bytes, int_at, open_parent, check_append, open_bound, finish_append, extend,
  append_at, append_bound,
}
use mgk_governance_kernel.Resource.Creating.{SameTree}
use mgk_governance_kernel.Resource.Rewriting.{HoldsBound, open_bound-HoldsBound}

-- What has been written stands behind what was there.
abbrev Behind : Bytes → Bytes → Type 0
Behind old new = (written : Bytes) × (new ≡ old ++ written)

write_all-Behind :
    (outcomes : List Outcome) (before contents : Bytes)
    → Behind before (write_all outcomes before contents).1
unfolding write_all
write_all-Behind outcomes before [] = ([], sym (append-nil before))
write_all-Behind [] before (c ∷ view) = (c ∷ view, refl)
write_all-Behind (failed ∷ rest) before (c ∷ view) = ([], sym (append-nil before))
write_all-Behind (wrote n ∷ rest) before (c ∷ view) = elim (Bool-cases (n == 0)) [
  | inl none_written ↦ rw none_written ([], sym (append-nil before))
  | inr some_written ↦
      let front = take n (c ∷ view) in
      let (more, e) = write_all-Behind rest (before ++ front) (drop n (c ∷ view)) in
      rw some_written (front ++ more, e ∙ append_assoc before front more)
]

module _ (p : Platform) where
  -- What `append_bound` has tested before it opens the target.
  pub record IsExtendable (b : Fields) (contents : Bytes) (fs : FileSystem) (q : FilePath)
      : Type 0 where
    pub path : Value
    pub shaped : is_binding append_keys "append" b ≡ true
    pub small : length contents ≤ max_resource_bytes
    pub has_path : get "path" b ≡ some path
    pub opened : open_parent path fs ≡ ok q

  check_append-ok :
      (b : Fields) (contents : Bytes) (fs : FileSystem) (q : FilePath)
      → check_append p b contents fs ≡ ok q
      → IsExtendable b contents fs q
  unfolding check_append
  check_append-ok b contents fs q h =
      guard_ok (not (is_binding append_keys "append" b)) resource _ h λ shaped h1.
        guard_ok (ltb max_resource_bytes (length contents)) resource _ h1 λ small h2.
          bind_ok (index b "path") _ h2 λ path at_path h3. record {
            path = path;
            shaped = ground arith;
            small = ground arith;
            has_path = index-ok b "path" at_path;
            opened = h3;
          }

  -- Every path as before, but for bytes behind the content of a file that was the bound one.
  abbrev pub IsExtension : Fields → FileSystem → FileSystem → Type 0
  IsExtension b fs fs' =
      SameTree fs fs'
      ⊎ ((q : FilePath) × (old : Bytes) × (written : Bytes) × HoldsBound p q b fs old
          × (fs' ≡ put_node q (file (old ++ written)) fs))

  -- A call that returns has put the payload behind the bound content; one that raises has put some
  -- bytes there, or has changed nothing.
  abbrev pub Extends : Fields → Bytes → FileSystem → Result Value × FileSystem → Type 0
  Extends b contents fs (ok digest, fs') =
      (q : FilePath) × (old : Bytes) × IsExtendable b contents fs q
      × HoldsBound p q b fs old
      × (int_at b "post_size" (length (old ++ contents)) ≡ true)
      × (get "post_sha256" b ≡ some digest)
      × (fs' ≡ put_node q (file (old ++ contents)) fs)
  Extends b contents fs (err e, fs') = IsExtension b fs fs'

  sized-Extends :
      (m : Result Value) (q : FilePath) (b : Fields) (contents old content : Bytes)
      (fs : FileSystem)
      → IsExtendable b contents fs q
      → HoldsBound p q b fs old
      → content ≡ old ++ contents
      → (raise_if (not (int_at b "post_size" (length content))) resource >>= λ _.
          index b "post_sha256")
        ≡ m
      → Extends b contents fs (m, put_node q (file content) fs)
  sized-Extends (err x) q b contents old content fs c held e h =
      inr (q, old, contents, held, ap (λ (y : Bytes). put_node q (file y) fs) e)
  sized-Extends (ok digest) q b contents old content fs c held e h =
      guard_ok (not (int_at b "post_size" (length content))) resource (index b "post_sha256") h
        λ sized h1. (
          q,
          old,
          c,
          held,
          subst (λ (y : Bytes). int_at b "post_size" (length y) ≡ true) e (ground (arith, sized)),
          index-ok b "post_sha256" h1,
          ap (λ (y : Bytes). put_node q (file y) fs) e,
        )

  finish-Extends :
      (w : Result (Unit {0}) × Bytes) (q : FilePath) (b : Fields) (contents old : Bytes)
      (fs : FileSystem)
      → IsExtendable b contents fs q
      → HoldsBound p q b fs old
      → (w.0 ≡ ok tt → w.1 ≡ old ++ contents)
      → Behind old w.1
      → Extends b contents fs (finish_append p w b q fs)
  finish-Extends (ok _, content) q b contents old fs c held done behind =
      sized-Extends
        (raise_if (not (int_at b "post_size" (length content))) resource >>= λ _.
          index b "post_sha256")
        q b contents old content fs c held (done refl) refl
  finish-Extends (err x, content) q b contents old fs c held done (written, e) =
      inr (q, old, written, held, ap (λ (y : Bytes). put_node q (file y) fs) e)

  extend-Extends :
      (r : Result Bytes) (outcomes : List Outcome) (q : FilePath) (b : Fields) (contents : Bytes)
      (fs : FileSystem)
      → IsExtendable b contents fs q
      → open_bound p resource (node_at q fs) b ≡ r
      → Extends b contents fs (extend p r outcomes b q contents fs)
  extend-Extends (err x) outcomes q b contents fs c e = inl (λ r. refl)
  extend-Extends (ok old) outcomes q b contents fs c e =
      finish-Extends (write_all outcomes old contents) q b contents old fs c
        (open_bound-HoldsBound p resource (node_at q fs) b q fs old refl e)
        (write_all-ok outcomes old contents) (write_all-Behind outcomes old contents)

  at-Extends :
      (r : Result FilePath) (outcomes : List Outcome) (b : Fields) (contents : Bytes)
      (fs : FileSystem)
      → check_append p b contents fs ≡ r
      → Extends b contents fs (append_at p r outcomes b contents fs)
  at-Extends (err e) outcomes b contents fs h = inl (λ r. refl)
  at-Extends (ok q) outcomes b contents fs h =
      extend-Extends (open_bound p resource (node_at q fs) b) outcomes q b contents fs
        (check_append-ok b contents fs q h) refl

  -- If `append_bound` returns, the target was a file with the bound size and SHA-256 before, the payload
  -- stands behind its content, the file has the bound size, and what comes back is the SHA-256 that the
  -- binding names. If it raises, every path is as it was, or such a file has bytes behind its content
  -- and nothing else has changed.
  pub append_bound-Extends :
      (outcomes : List Outcome) (b : Fields) (contents : Bytes) (fs : FileSystem)
      → Extends b contents fs (append_bound p outcomes b contents fs)
  unfolding append_bound
  append_bound-Extends outcomes b contents fs =
      at-Extends (check_append p b contents fs) outcomes b contents fs refl
