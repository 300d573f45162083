-- ===== src/Tests/Repository.antt =====
-- A working tree with its protected files, a state, and the answers of git, for runs of the outer tool.
use mgk_governance_kernel.Prelude.{
  Bool, true, false, ◌&&◌, leb, none, some, List, [], ◌∷◌, ◌++◌, all, codes, String, if◌then◌else◌,
}
use mgk_governance_kernel.Prelude.Int.{pos}
use mgk_governance_kernel.Errors.{ok}
use mgk_governance_kernel.Json.{Value, Items, Fields}
use mgk_governance_kernel.Platform.{Bytes}
use mgk_governance_kernel.Canonical.{eq_bytes}
use mgk_governance_kernel.Tcb.Texts.{Text}
use mgk_governance_kernel.Tcb.Trust.{Tree, regular, manifest_path, required_protected_paths}
use mgk_governance_kernel.Tcb.Contracts.{Reader}
use mgk_governance_kernel.Tcb.Phases.{phases_path}
use mgk_governance_kernel.Tcb.State.{Json}
use mgk_governance_kernel.Tcb.Patch.{Git, at_head}
use mgk_governance_kernel.Tests.Toy.{sha}

abbrev pub anchor : Text
anchor = codes sha

abbrev manifest_of : List Text → Bytes
manifest_of [] = []
manifest_of (t ∷ ts) = codes sha ++ 32 ∷ 32 ∷ t ++ 10 ∷ manifest_of ts

abbrev line : String → Bytes
line s = codes s ++ 10 ∷ []

abbrev phases_text : Bytes
phases_text =
    line "phases:"
    ++ line "  - id: F00"
    ++ line "    name: core"
    ++ line "    next: null"
    ++ line "    max_attempts: 3"
    ++ line "    agent: a"
    ++ line "    prompt: b"
    ++ line "    required_gates:"
    ++ line "      - G1"
    ++ line "    allowed_paths:"
    ++ line "      - src/x"

abbrev pub tree : Tree
tree t =
    if eq_bytes t manifest_path
    then regular (manifest_of required_protected_paths)
    else if eq_bytes t phases_path
    then regular phases_text
    else regular []

abbrev pub reader : Reader
reader = record {
  utf8 = λ b. some b;
  literal = λ t. ok none;
  is_digits = λ t. all (λ c. leb 48 c && leb c 57) t;
  int_of = λ t. ok (pos 3);
}

abbrev state_value : Value
state_value = Value.obj (
    Fields.field "version" (Value.int (pos 1)) (
      Fields.field "phase" (Value.str "F00") (
        Fields.field "attempts" (Value.int (pos 2)) (
          Fields.field "phases_done" (Value.arr Items.nil)
            (Fields.field "hash" (Value.str sha) Fields.end)))))

abbrev pub json : Json
json = record { loads = λ b. some state_value; dumps_ascii = λ v. []; dump_indented = λ v. 1 ∷ [] }

abbrev pub matches : Text → Text → Bool
matches relative pattern' = eq_bytes relative pattern'

abbrev pub git : Git
git = record {
  index_before = at_head;
  resets = true;
  is_dirty = false;
  applies = λ b. true;
  applied = λ b. ok tt;
  changed = λ b. ok (codes "src/x" ++ 0 ∷ []);
  staged = λ b t. ok (codes "100644 e69de29 0" ++ 9 ∷ codes "src/x" ++ 0 ∷ []);
}
