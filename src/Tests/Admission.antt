-- ===== src/Tests/Admission.antt =====
-- The checks of the outer tool on small inputs: the theorems applied to them.
use mgk_governance_kernel.Errors.{ok}
use mgk_governance_kernel.Platform.{Bytes}
use mgk_governance_kernel.Prelude.{All, List, [], codes, false, none, refl, some, true, ◌∷◌, ◌≡◌}
use mgk_governance_kernel.Tcb.Patch.{verify_patch}
use mgk_governance_kernel.Tcb.Patch.Admitted.{Judges, verify_patch-Judges}
use mgk_governance_kernel.Tcb.State.{advance_state}
use mgk_governance_kernel.Tcb.State.Transition.{Advance, advance_state-Advance}
use mgk_governance_kernel.Tcb.Texts.{path_parts, split_at, splitlines, text_lt, translate}
use mgk_governance_kernel.Tcb.Trust.{
  ManifestEntry, check_entries, check_entry, covers, includes, is_unsafe, load_manifest,
  manifest_entries, manifest_entry, manifest_path, paths_of, regular, required_protected_paths,
  sha256_file, split_spaces, verify_protected_tree,
}
use mgk_governance_kernel.Tcb.Trust.Protected.{Holds, IsAscending, verify_protected_tree-ok}
use mgk_governance_kernel.Tests.Repository.{anchor, git, json, matches, reader, tree}
use mgk_governance_kernel.Tests.Toy.{toy}

protected : verify_protected_tree toy anchor tree ≡ ok tt
unfolding verify_protected_tree load_manifest sha256_file check_entries check_entry manifest_entries
    manifest_entry split_spaces splitlines split_at translate text_lt path_parts covers includes
protected = refl

verify_protected_tree-ok_example :
    (content : Bytes) × (es : List ManifestEntry) × (tree manifest_path ≡ regular content)
    × (codes (toy.sha256 content) ≡ anchor)
    × (manifest_entries [] none (splitlines (translate content)) ≡ ok es)
    × IsAscending none es
    × All (λ (e : ManifestEntry). is_unsafe e.path ≡ false) es
    × (includes (paths_of es) required_protected_paths ≡ true)
    × (includes required_protected_paths (paths_of es) ≡ true)
    × All (Holds toy tree) es
verify_protected_tree-ok_example = verify_protected_tree-ok toy anchor tree protected

advance_state-Advance_example :
    Advance toy json anchor tree
      (some [])
      (advance_state toy json anchor tree (some [])).0
      (advance_state toy json anchor tree (some [])).1
advance_state-Advance_example = advance_state-Advance toy json anchor tree (some [])

verify_patch-Judges_example :
    Judges toy reader json matches anchor tree
      (some [])
      (regular (1 ∷ []))
      git
      (verify_patch toy reader json matches anchor tree (some []) (regular (1 ∷ [])) git)
verify_patch-Judges_example =
    verify_patch-Judges toy reader json matches anchor tree (some []) (regular (1 ∷ [])) git
