-- ===== src/Resource.antt =====
-- src/mgk/resource.py: binding a resource to its content, and operations that hold it to that.
-- One call is one step on the file tree below the root. What `os.write` returns is chosen by the
-- environment; that `fsync`, `fstat` and `unlink` work on what was opened is taken for granted.
pub mod Paths
pub mod Files
pub mod Reading
pub mod Creating
pub mod Rewriting
pub mod Extending
use mgk_governance_kernel.Prelude.{
  ℕ, ◌+◌, ◌*◌, Bool, true, false, ◌||◌, ◌&&◌, not, Option, none, some, List, [], ◌++◌, String, ◌==◌,
  ltb, length,
}
use mgk_governance_kernel.Prelude.Int.{pos}
use mgk_governance_kernel.Errors.{Error, Result, ok, err, resource, os_error, ◌>>=◌, ◌>>◌, raise_if}
use mgk_governance_kernel.Json.{Value, Fields, get, is_int}
use mgk_governance_kernel.Json.Access.{index}
use mgk_governance_kernel.Platform.{Bytes, Platform}
use mgk_governance_kernel.Bindings.{
  is_binding, at_is, in_states, present_keys, absent_keys, write_keys, append_keys, is_hex_of,
}
use Paths.{parts_of}
use Files.{
  FileSystem, FilePath, Node, file, directory, symlink, special, Outcome, node_at, put_node,
  remove_node, leads, write_all,
}

abbrev pub max_resource_bytes : ℕ
max_resource_bytes = 8 * (1024 * 1024)

-- `d[key] == n` where the key is known to be there.
abbrev pub int_at : Fields → String → ℕ → Bool
int_at d k n = elim (get k d) [ none ↦ false | some v ↦ is_int (pos n) v ]

-- `_open_parent`: an `os.open` that fails raises an OSError that nothing here catches.
unfoldable pub open_parent : Value → FileSystem → Result FilePath
open_parent relative fs = do q ← parts_of relative; raise_if (not (leads [] q fs)) os_error; ok q

-- `_read_descriptor` on a file of this content.
unfoldable pub read_descriptor : Bytes → Result Bytes
read_descriptor content = do raise_if (ltb max_resource_bytes (length content)) resource; ok content

-- `_open_file` once the parent is open: only a regular file within the limit gives a descriptor.
unfoldable pub open_node : Option Node → Result Bytes
unfolding read_descriptor
open_node (some (file content)) = read_descriptor content
open_node _ = err resource

unfoldable pub open_file : Value → FileSystem → Result Bytes
open_file relative fs = do q ← open_parent relative fs; open_node (node_at q fs)

module _ (p : Platform) where
  abbrev pub present_binding : String → Bytes → Fields
  present_binding relative content = Fields.field "path" (Value.str relative) (
      Fields.field "sha256" (Value.str (p.sha256 content)) (
        Fields.field "size" (Value.int (pos (length content)))
          (Fields.field "state" (Value.str "present") Fields.end)))

  unfoldable pub bind_present : String → FileSystem → Result Fields
  bind_present relative fs = do
    content ← open_file (Value.str relative) fs
    ok (present_binding relative content)

  abbrev pub absent_binding : String → String → ℕ → Fields
  absent_binding relative post_sha256 post_size = Fields.field "path" (Value.str relative) (
      Fields.field "post_sha256" (Value.str post_sha256) (
        Fields.field "post_size" (Value.int (pos post_size))
          (Fields.field "state" (Value.str "absent") Fields.end)))

  abbrev pub is_there : Option Node → Bool
  is_there none = false
  is_there (some _) = true

  unfoldable pub bind_absent : String → String → ℕ → FileSystem → Result Fields
  bind_absent relative post_sha256 post_size fs = do
    raise_if (not (is_hex_of 64 post_sha256)) resource
    raise_if (ltb max_resource_bytes post_size) resource
    q ← open_parent (Value.str relative) fs
    raise_if (is_there (node_at q fs)) resource
    ok (absent_binding relative post_sha256 post_size)

  -- `len(data) != binding[size] or sha256(data) != binding[sha]`, denied.
  abbrev pub is_content : Fields → String → String → Bytes → Bool
  is_content b size sha content = int_at b size (length content) && at_is b sha (p.sha256 content)

  unfoldable pub read_bound : Fields → FileSystem → Result Bytes
  read_bound b fs = do
    raise_if (not (is_binding present_keys "present" b)) resource
    relative ← index b "path"
    content ← open_file relative fs
    raise_if (not (is_content b "size" "sha256" content)) resource
    ok content

  -- The end of `create_bound`, and of `write_bound` on a new file: a failure unlinks the file.
  abbrev pub finish_create :
      Result (Unit {0}) × Bytes → FilePath → Bytes → FileSystem → Result String × FileSystem
  finish_create (ok _, content) q contents fs =
      (ok (p.sha256 contents), put_node q (file content) fs)
  finish_create (err e, content) q contents fs =
      (err e, remove_node q (put_node q (file content) fs))

  -- `os.open` with O_CREAT and O_EXCL, and the loop that writes.
  unfoldable pub create_file :
      Option Node → List Outcome → FilePath → Bytes → FileSystem → Result String × FileSystem
  create_file (some _) outcomes q contents fs = (err resource, fs)
  create_file none outcomes q contents fs =
      finish_create (write_all outcomes [] contents) q contents fs

  -- What `create_bound` tests before it opens the target.
  unfoldable pub check_create : Fields → Bytes → FileSystem → Result FilePath
  check_create b contents fs = do
    raise_if (not (is_binding absent_keys "absent" b)) resource
    raise_if (not (is_content b "post_size" "post_sha256" contents)) resource
    raise_if (ltb max_resource_bytes (length contents)) resource
    relative ← index b "path"
    open_parent relative fs

  abbrev pub create_at :
      Result FilePath → List Outcome → Bytes → FileSystem → Result String × FileSystem
  create_at (err e) outcomes contents fs = (err e, fs)
  create_at (ok q) outcomes contents fs = create_file (node_at q fs) outcomes q contents fs

  unfoldable pub create_bound :
      List Outcome → Fields → Bytes → FileSystem → Result String × FileSystem
  create_bound outcomes b contents fs = create_at (check_create b contents fs) outcomes contents fs

  abbrev pub write_binding : String → Bytes → Option Bytes → Fields
  write_binding relative contents pre = Fields.field "path" (Value.str relative) (
      Fields.field "post_sha256" (Value.str (p.sha256 contents)) (
        Fields.field "post_size" (Value.int (pos (length contents))) (elim pre [
          | none ↦ Fields.field "pre_sha256" (Value.str "") (
              Fields.field "pre_size" (Value.int (pos 0)) (
                Fields.field "pre_state" (Value.str "absent")
                  (Fields.field "state" (Value.str "write") Fields.end)))
          | some old ↦ Fields.field "pre_sha256" (Value.str (p.sha256 old)) (
              Fields.field "pre_size" (Value.int (pos (length old))) (
                Fields.field "pre_state" (Value.str "present")
                  (Fields.field "state" (Value.str "write") Fields.end)))
        ])))

  -- The content before a write, or that there is none; a link raises an OSError here.
  unfoldable pub read_before : Option Node → Result (Option Bytes)
  unfolding read_descriptor
  read_before none = ok none
  read_before (some (file content)) = read_descriptor content >>= λ pre. ok (some pre)
  read_before (some symlink) = err os_error
  read_before (some _) = err resource

  unfoldable pub bind_write : String → Bytes → FileSystem → Result Fields
  bind_write relative contents fs = do
    raise_if (ltb max_resource_bytes (length contents)) resource
    q ← open_parent (Value.str relative) fs
    pre ← read_before (node_at q fs)
    ok (write_binding relative contents pre)

  -- `os.open` with O_RDWR, the test for a regular file and the comparison with the bound content.
  unfoldable pub open_bound : Error → Option Node → Fields → Result Bytes
  unfolding read_descriptor
  open_bound missing none b = err missing
  open_bound missing (some (file content)) b = do
    current ← read_descriptor content
    raise_if (not (is_content b "pre_size" "pre_sha256" current)) resource
    ok current
  open_bound missing (some special) b = err resource
  open_bound missing (some _) b = err os_error

  -- What `write_bound` tests before it opens the target: the path, and whether it is to be new.
  unfoldable pub check_write : Fields → Bytes → FileSystem → Result (FilePath × Bool)
  check_write b contents fs = do
    raise_if (not (is_binding write_keys "write" b)) resource
    pre_state ← index b "pre_state"
    in_states resource pre_state
    raise_if (ltb max_resource_bytes (length contents)) resource
    raise_if (not (is_content b "post_size" "post_sha256" contents)) resource
    relative ← index b "path"
    q ← open_parent relative fs
    ok (q, at_is b "pre_state" "absent")

  -- The end of a write into a file that was there: a failure leaves what has been written.
  abbrev pub finish_write :
      Result (Unit {0}) × Bytes → FilePath → Bytes → FileSystem → Result String × FileSystem
  finish_write (ok _, content) q contents fs =
      (ok (p.sha256 contents), put_node q (file content) fs)
  finish_write (err e, content) q contents fs = (err e, put_node q (file content) fs)

  -- The file is cut to nothing before the loop writes.
  abbrev pub overwrite :
      Result Bytes → List Outcome → FilePath → Bytes → FileSystem → Result String × FileSystem
  overwrite (err e) outcomes q contents fs = (err e, fs)
  overwrite (ok current) outcomes q contents fs =
      finish_write (write_all outcomes [] contents) q contents fs

  abbrev pub write_at :
      Result (FilePath × Bool)
      → List Outcome
      → Fields
      → Bytes
      → FileSystem
      → Result String × FileSystem
  write_at (err e) outcomes b contents fs = (err e, fs)
  write_at (ok (q, true)) outcomes b contents fs = create_file (node_at q fs) outcomes q contents fs
  write_at (ok (q, false)) outcomes b contents fs =
      overwrite (open_bound os_error (node_at q fs) b) outcomes q contents fs

  unfoldable pub write_bound :
      List Outcome → Fields → Bytes → FileSystem → Result String × FileSystem
  write_bound outcomes b contents fs = write_at (check_write b contents fs) outcomes b contents fs

  abbrev pub append_binding : String → Bytes → Bytes → Fields
  append_binding relative pre contents = Fields.field "path" (Value.str relative) (
      Fields.field "post_sha256" (Value.str (p.sha256 (pre ++ contents))) (
        Fields.field "post_size" (Value.int (pos (length pre + length contents))) (
          Fields.field "pre_sha256" (Value.str (p.sha256 pre)) (
            Fields.field "pre_size" (Value.int (pos (length pre)))
              (Fields.field "state" (Value.str "append") Fields.end)))))

  unfoldable pub bind_append : String → Bytes → FileSystem → Result Fields
  bind_append relative contents fs = do
    raise_if (ltb max_resource_bytes (length contents)) resource
    pre ← open_file (Value.str relative) fs
    raise_if (ltb max_resource_bytes (length pre + length contents)) resource
    ok (append_binding relative pre contents)

  unfoldable pub check_append : Fields → Bytes → FileSystem → Result FilePath
  check_append b contents fs = do
    raise_if (not (is_binding append_keys "append" b)) resource
    raise_if (ltb max_resource_bytes (length contents)) resource
    relative ← index b "path"
    open_parent relative fs

  -- The size is tested after the write, and the file stays as it is written in any case.
  abbrev pub finish_append :
      Result (Unit {0}) × Bytes → Fields → FilePath → FileSystem → Result Value × FileSystem
  finish_append (ok _, content) b q fs = (
    raise_if (not (int_at b "post_size" (length content))) resource >>= λ _. index b "post_sha256",
    put_node q (file content) fs,
  )
  finish_append (err e, content) b q fs = (err e, put_node q (file content) fs)

  abbrev pub extend :
      Result Bytes
      → List Outcome
      → Fields
      → FilePath
      → Bytes
      → FileSystem
      → Result Value × FileSystem
  extend (err e) outcomes b q contents fs = (err e, fs)
  extend (ok current) outcomes b q contents fs =
      finish_append (write_all outcomes current contents) b q fs

  abbrev pub append_at :
      Result FilePath → List Outcome → Fields → Bytes → FileSystem → Result Value × FileSystem
  append_at (err e) outcomes b contents fs = (err e, fs)
  append_at (ok q) outcomes b contents fs =
      extend (open_bound resource (node_at q fs) b) outcomes b q contents fs

  unfoldable pub append_bound :
      List Outcome → Fields → Bytes → FileSystem → Result Value × FileSystem
  append_bound outcomes b contents fs =
      append_at (check_append b contents fs) outcomes b contents fs

  -- Whether the node is still the bound file; `_read_descriptor` may raise.
  unfoldable pub is_created : Option Node → Fields → String → Result Bool
  unfolding read_descriptor
  is_created (some (file content)) b digest = do
    current ← read_descriptor content
    ok (is_content b "post_size" "post_sha256" current)
  is_created _ b digest = ok false

  abbrev pub unlink_if : Result Bool → FilePath → FileSystem → Result Bool × FileSystem
  unlink_if (ok true) q fs = (ok true, remove_node q fs)
  unlink_if r q fs = (r, fs)

  abbrev pub remove_at : Result FilePath → Fields → String → FileSystem → Result Bool × FileSystem
  remove_at (err e) b digest fs = (err e, fs)
  remove_at (ok q) b digest fs = unlink_if (is_created (node_at q fs) b digest) q fs

  abbrev pub remove_if : Bool → Fields → String → FileSystem → Result Bool × FileSystem
  remove_if true b digest fs =
      remove_at (index b "path" >>= λ relative. open_parent relative fs) b digest fs
  remove_if false b digest fs = (ok false, fs)

  unfoldable pub remove_created : Fields → String → FileSystem → Result Bool × FileSystem
  remove_created b digest fs =
      remove_if (at_is b "state" "absent" && at_is b "post_sha256" digest) b digest fs
