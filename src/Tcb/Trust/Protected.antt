-- ===== src/Tcb/Trust/Protected.antt =====
-- What `verify_protected_tree` of orchestrator/tcb/trust.py establishes.
use mgk_governance_kernel.Prelude.{
  ◌≡◌, subst, true, false, not, Option, none, some, List, [], ◌∷◌, any, All, codes, ltb, arith,
  &&_split, ◌∙◌, ◌||◌,
}
use mgk_governance_kernel.Errors.{
  ok, runtime_error, value_error, ok_inj, bind_ok, guard_ok, or_raise, raise_if-eq-ok,
}
use mgk_governance_kernel.Platform.{Bytes, Platform}
use mgk_governance_kernel.Canonical.{eq_bytes, eq_bytes→eq}
use mgk_governance_kernel.Tcb.Texts.{Text, translate, splitlines, is_among, is_sha256}
use mgk_governance_kernel.Tcb.Trust.{
  Tree, TreeEntry, absent, special, link, regular, ManifestEntry, manifest_path,
  required_protected_paths, paths_of, regular_at, is_unsafe, follows, split_spaces, manifest_entry,
  manifest_entries, includes, covers, load_manifest, sha256_file, check_entry, check_entries,
  verify_protected_tree,
}

-- Strictly ascending paths, above the one before.
pub data IsAscending : Option Text → List ManifestEntry → Type 0 where
  done : {previous : Option Text} → IsAscending previous []
  next :
      {previous : Option Text} {e : ManifestEntry} {es : List ManifestEntry}
      → follows previous e.path ≡ true
      → IsAscending (some e.path) es
      → IsAscending previous (e ∷ es)

pub regular_at-ok : (e : TreeEntry) {b : Bytes} → regular_at e ≡ ok b → e ≡ regular b
regular_at-ok (regular c) h = cc
regular_at-ok absent h = cc
regular_at-ok special h = cc
regular_at-ok (link o) h = cc

covers-includes :
    (es : List ManifestEntry)
    → not (covers es) ≡ false
    → (includes (paths_of es) required_protected_paths ≡ true)
      × (includes required_protected_paths (paths_of es) ≡ true)
unfolding covers
covers-includes es h =
    &&_split (includes (paths_of es) required_protected_paths)
      (includes required_protected_paths (paths_of es)) (ground arith)

module _ (p : Platform) where
  -- A regular file, not a link, whose content has the digest of the entry.
  abbrev pub Holds : Tree → ManifestEntry → Type 0
  Holds tree e =
      (content : Bytes) × (tree e.path ≡ regular content) × (codes (p.sha256 content) ≡ e.digest)

  manifest_entry-follows :
      (seen : List Text) (previous : Option Text) (line : Text) (e : ManifestEntry)
      → manifest_entry seen previous line ≡ ok e
      → (follows previous e.path ≡ true) × (is_unsafe e.path ≡ false)
  unfolding manifest_entry
  manifest_entry-follows seen previous line e h =
      bind_ok (or_raise (split_spaces line) runtime_error) _ h λ halves split h1.
        guard_ok (not (is_sha256 halves.0)) runtime_error _ h1 λ hex h2.
          guard_ok (is_unsafe halves.1) runtime_error _ h2 λ safe h3.
            guard_ok (is_among halves.1 seen || not (follows previous halves.1)) runtime_error _ h3
              λ order h4.
                subst
                  (λ (k : ManifestEntry).
                    (follows previous k.path ≡ true) × (is_unsafe k.path ≡ false))
                  (ok_inj h4) (ground arith)

  manifest_entries-IsAscending :
      (seen : List Text) (previous : Option Text) (lines : List Text) (es : List ManifestEntry)
      → manifest_entries seen previous lines ≡ ok es
      → IsAscending previous es × All (λ (e : ManifestEntry). is_unsafe e.path ≡ false) es
  unfolding manifest_entries
  manifest_entries-IsAscending seen previous [] es h =
      subst
        (λ (k : List ManifestEntry).
          IsAscending previous k × All (λ (e : ManifestEntry). is_unsafe e.path ≡ false) k)
        (ok_inj h) (done, tt)
  manifest_entries-IsAscending seen previous (line ∷ rest) es h =
      bind_ok (manifest_entry seen previous line) _ h λ e one h1.
        bind_ok (manifest_entries (e.path ∷ seen) (some e.path) rest) _ h1 λ more all' h2.
          let (above, safe) = manifest_entry-follows seen previous line e one in
          let (order, safes) =
            manifest_entries-IsAscending (e.path ∷ seen) (some e.path) rest more all' in
          subst
            (λ (k : List ManifestEntry).
              IsAscending previous k × All (λ (e' : ManifestEntry). is_unsafe e'.path ≡ false) k)
            (ok_inj h2) (next above order, (safe, safes))

  check_entries-Holds :
      (tree : Tree) (es : List ManifestEntry) {u : Unit {0}}
      → check_entries p tree es ≡ ok u
      → All (Holds tree) es
  unfolding check_entries check_entry
  check_entries-Holds tree [] h = tt
  check_entries-Holds tree (e ∷ es) h = bind_ok (check_entry p tree e) _ h λ done' one h1.
      bind_ok (regular_at (tree e.path)) _ one λ content found h2. (
        (
          content,
          regular_at-ok (tree e.path) found,
          eq_bytes→eq _ _ (
              ground (
                arith,
                raise_if-eq-ok (not (eq_bytes (codes (p.sha256 content)) e.digest)) runtime_error
                    h2,
              )),
        ),
        check_entries-Holds tree es h1,
      )

  load_manifest-ok :
      (tree : Tree) (es : List ManifestEntry)
      → load_manifest tree ≡ ok es
      → (content : Bytes) × (tree manifest_path ≡ regular content)
        × (manifest_entries [] none (splitlines (translate content)) ≡ ok es)
        × (includes (paths_of es) required_protected_paths ≡ true)
        × (includes required_protected_paths (paths_of es) ≡ true)
  unfolding load_manifest covers
  load_manifest-ok tree es h = bind_ok (regular_at (tree manifest_path)) _ h λ content found h1.
      guard_ok (any (λ c. ltb 127 c) content) value_error _ h1 λ ascii h2.
        bind_ok (manifest_entries [] none (splitlines (translate content))) _ h2 λ read parsed h3.
          guard_ok (not (covers read)) runtime_error _ h3 λ complete h4.
            let (complete', exact) = covers-includes read complete in
            subst
              (λ (k : List ManifestEntry).
                (c : Bytes) × (tree manifest_path ≡ regular c)
                × (manifest_entries [] none (splitlines (translate c)) ≡ ok k)
                × (includes (paths_of k) required_protected_paths ≡ true)
                × (includes required_protected_paths (paths_of k) ≡ true))
              (ok_inj h4)
              (content, regular_at-ok (tree manifest_path) found, parsed, complete', exact)

  -- What passes is what the anchor stands for. Where `verify_protected_tree` returns, the manifest is a
  -- regular file whose SHA-256 is the anchor, its lines name safe relative paths in strictly ascending
  -- order, every path that the code requires is among them and no other, and each of them is a regular
  -- file, not a link, whose SHA-256 is the one in its line.
  pub verify_protected_tree-ok :
      (anchor : Text) (tree : Tree)
      → verify_protected_tree p anchor tree ≡ ok tt
      → (content : Bytes) × (es : List ManifestEntry) × (tree manifest_path ≡ regular content)
        × (codes (p.sha256 content) ≡ anchor)
        × (manifest_entries [] none (splitlines (translate content)) ≡ ok es)
        × IsAscending none es
        × All (λ (e : ManifestEntry). is_unsafe e.path ≡ false) es
        × (includes (paths_of es) required_protected_paths ≡ true)
        × (includes required_protected_paths (paths_of es) ≡ true)
        × All (Holds tree) es
  unfolding verify_protected_tree sha256_file
  verify_protected_tree-ok anchor tree h =
      guard_ok (not (is_sha256 anchor)) runtime_error _ h λ hex h1.
        bind_ok (sha256_file p (tree manifest_path)) _ h1 λ actual hashed h2.
          guard_ok (not (eq_bytes actual anchor)) runtime_error _ h2 λ same h3.
            bind_ok (load_manifest tree) _ h3 λ es loaded checked.
              let (content, found, parsed, complete, exact) = load_manifest-ok tree es loaded in
              let (order, safe) = manifest_entries-IsAscending [] none _ es parsed in
              let at = subst (λ (e : TreeEntry). sha256_file p e ≡ ok actual) found hashed in
              (
                content,
                es,
                found,
                ok_inj at ∙ eq_bytes→eq actual anchor (ground arith),
                parsed,
                order,
                safe,
                complete,
                exact,
                check_entries-Holds tree es checked,
              )
