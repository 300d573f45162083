-- ===== src/Resource/Files.antt =====
-- The file tree below the root of a ResourceGuard (src/mgk/resource.py), and what `os.open` and
-- `os.write` do to it. A path is its names; the root is the empty path.
use mathlib.Core.List.{append-nil, append_assoc}
use mgk_governance_kernel.Prelude.{
  ℕ, ◌-◌, ◌≡◌, refl, Bool, true, false, ◌&&◌, Option, none, some, List, [], ◌∷◌, ◌++◌, ◌≢◌,
  if◌then◌else◌, arith, ◌==◌, ap, sym, subst, ◌∙◌, Bool-cases, inl, inr,
}
use mgk_governance_kernel.Errors.{Error, Result, ok, err, resource, os_error}
use mgk_governance_kernel.Platform.{Bytes}
use mgk_governance_kernel.Canonical.{eq_bytes, eq_bytes→eq}
use mgk_governance_kernel.Resource.Paths.{Name}

-- A symbolic link is opened by no call (O_NOFOLLOW); `special` can be opened and is no regular file, as a
-- device. A socket, or a pipe without a reader, on which the opening itself raises, is not modelled.
pub data Node : Type 0 where
  file : Bytes → Node
  directory symlink special : Node

abbrev pub FilePath : Type 0
FilePath = List Name

abbrev pub eq_path : FilePath → FilePath → Bool
eq_path [] [] = true
eq_path (a ∷ as') (b ∷ bs) = eq_bytes a b && eq_path as' bs
eq_path _ _ = false

pub eq_bytes_refl : (a : Bytes) → eq_bytes a a ≡ true
eq_bytes_refl [] = refl
eq_bytes_refl (c ∷ a) = ground (arith, eq_bytes_refl a)

pub eq_path→eq : (a b : FilePath) → eq_path a b ≡ true → a ≡ b
eq_path→eq [] [] h = refl
eq_path→eq [] (y ∷ b) h = cc
eq_path→eq (x ∷ a) [] h = cc
eq_path→eq (x ∷ a) (y ∷ b) h = ground (arith, eq_bytes→eq x y, eq_path→eq a b)

pub eq_path_refl : (a : FilePath) → eq_path a a ≡ true
eq_path_refl [] = refl
eq_path_refl (x ∷ a) = ground (arith, eq_bytes_refl x, eq_path_refl a)

abbrev pub FileSystem : Type 0
FileSystem = List (FilePath × Node)

unfoldable pub node_at : FilePath → FileSystem → Option Node
node_at q [] = none
node_at q ((r, n) ∷ fs) = if eq_path r q then some n else node_at q fs

-- The node at a path, made or replaced.
unfoldable pub put_node : FilePath → Node → FileSystem → FileSystem
put_node q n fs = (q, n) ∷ fs

unfoldable pub remove_node : FilePath → FileSystem → FileSystem
remove_node q [] = []
remove_node q ((r, n) ∷ fs) =
    let rest = remove_node q fs in if eq_path r q then rest else (r, n) ∷ rest

pub node_at-put_node :
    (q r : FilePath) (n : Node) (fs : FileSystem)
    → node_at r (put_node q n fs) ≡ (if eq_path q r then some n else node_at r fs)
unfolding node_at put_node
node_at-put_node q r n fs = refl

pub node_at-remove_node :
    (q r : FilePath) (fs : FileSystem)
    → node_at r (remove_node q fs) ≡ (if eq_path q r then none else node_at r fs)
unfolding node_at remove_node
node_at-remove_node q r [] = ground arith
node_at-remove_node q r ((s, n) ∷ fs) = ground (
  arith,
  node_at-remove_node q r fs,
  eq_path→eq s q,
  eq_path→eq s r,
  eq_path→eq q r,
  eq_path_refl r,
)

-- Whether every part of the path but the last leads through directories; the first argument is the
-- path so far.
unfoldable pub leads : FilePath → List Name → FileSystem → Bool
leads seen [] fs = true
leads seen (n ∷ []) fs = true
leads seen (n ∷ m ∷ ns) fs = elim (node_at (seen ++ n ∷ []) fs) [
  | some directory ↦ leads (seen ++ n ∷ []) (m ∷ ns) fs
  | _ ↦ false
]

-- What one call of `os.write` does: it writes so many bytes at most, or raises an OSError.
pub data Outcome : Type 0 where
  wrote : ℕ → Outcome
  failed : Outcome

unfoldable pub take : ℕ → Bytes → Bytes
take n [] = []
take n (c ∷ cs) = if n == 0 then [] else c ∷ take (n - 1) cs

unfoldable pub drop : ℕ → Bytes → Bytes
drop n [] = []
drop n (c ∷ cs) = if n == 0 then c ∷ cs else drop (n - 1) cs

pub take-append-drop : (n : ℕ) (b : Bytes) → take n b ++ drop n b ≡ b
unfolding take drop
take-append-drop n [] = refl
take-append-drop n (c ∷ cs) = elim (Bool-cases (n == 0)) [
  | inl none_left ↦ rw none_left refl
  | inr more ↦ rw more (ap (λ (x : Bytes). c ∷ x) (take-append-drop (n - 1) cs))
]

-- `while view: written = os.write(descriptor, view) …`: what stands in the file after it, and whether
-- it raised. Once the list of outcomes is used up, each call writes all that it is given.
unfoldable pub write_all : List Outcome → Bytes → Bytes → Result (Unit {0}) × Bytes
write_all outcomes content [] = (ok tt, content)
write_all [] content (c ∷ view) = (ok tt, content ++ c ∷ view)
write_all (failed ∷ rest) content (c ∷ view) = (err os_error, content)
write_all (wrote n ∷ rest) content (c ∷ view) =
    let next = write_all rest (content ++ take n (c ∷ view)) (drop n (c ∷ view)) in
    if n == 0 then (err resource, content) else next

-- If the loop ends, the whole view has been written, whatever the calls wrote at a time.
pub write_all-ok :
    (outcomes : List Outcome) (content view : Bytes)
    → (write_all outcomes content view).0 ≡ ok tt
    → (write_all outcomes content view).1 ≡ content ++ view
unfolding write_all
write_all-ok outcomes content [] h = sym (append-nil content)
write_all-ok [] content (c ∷ view) h = refl
write_all-ok (failed ∷ rest) content (c ∷ view) h = cc
write_all-ok (wrote n ∷ rest) content (c ∷ view) h = elim (Bool-cases (n == 0)) [
  | inl short ↦ cc (rw short at h)
  | inr some_written ↦
      let front = take n (c ∷ view) in
      let back = drop n (c ∷ view) in
      rw some_written (
        write_all-ok rest (content ++ front) back (rw some_written at h)
        ∙ append_assoc content front back
        ∙ ap (λ (x : Bytes). content ++ x) (take-append-drop n (c ∷ view)))
]

-- If the loop raises, a beginning of the view has been written, and not all of it.
pub write_all-torn :
    (outcomes : List Outcome) (content view : Bytes) (e : Error)
    → (write_all outcomes content view).0 ≡ err e
    → (front : Bytes) × (back : Bytes) × (view ≡ front ++ back)
      × (back ≢ [])
      × ((write_all outcomes content view).1 ≡ content ++ front)
unfolding write_all
write_all-torn outcomes content [] e h = absurd (cc)
write_all-torn [] content (c ∷ view) e h = absurd (cc)
write_all-torn (failed ∷ rest) content (c ∷ view) e h =
    ([], c ∷ view, refl, (λ same. cc), sym (append-nil content))
write_all-torn (wrote n ∷ rest) content (c ∷ view) e h = elim (Bool-cases (n == 0)) [
  | inl short ↦ ([], c ∷ view, refl, (λ same. cc), rw short (sym (append-nil content)))
  | inr some_written ↦
      let front = take n (c ∷ view) in
      let back = drop n (c ∷ view) in
      let (more, left, same, open', written) =
        write_all-torn rest (content ++ front) back e (rw some_written at h) in
      (
        front ++ more,
        left,
        sym (take-append-drop n (c ∷ view))
            ∙ ap (λ (x : Bytes). front ++ x) same
            ∙ sym (append_assoc front more left),
        open',
        rw some_written (written ∙ append_assoc content front more),
      )
]

length-snoc-ne :
    (seen : FilePath) (n m : Name) (ns : List Name)
    → eq_path (seen ++ n ∷ m ∷ ns) (seen ++ n ∷ []) ≡ false
length-snoc-ne [] n m ns = ground (arith, eq_bytes_refl n)
length-snoc-ne (x ∷ seen) n m ns = ground (arith, length-snoc-ne seen n m ns)

node_at_above :
    (seen : FilePath) (a b : Name) (ns : List Name) (n : Node) (fs : FileSystem)
    → node_at (seen ++ a ∷ []) (put_node (seen ++ a ∷ b ∷ ns) n fs) ≡ node_at (seen ++ a ∷ []) fs
node_at_above seen a b ns n fs = rw (node_at-put_node, length-snoc-ne) refl

-- The directories above a path do not depend on what stands at the path.
pub leads-put_node :
    (seen : FilePath) (ns : List Name) (n : Node) (fs : FileSystem)
    → leads seen ns (put_node (seen ++ ns) n fs) ≡ leads seen ns fs
unfolding leads
leads-put_node seen [] n fs = refl
leads-put_node seen (a ∷ []) n fs = refl
leads-put_node seen (a ∷ b ∷ ns) n fs =
    let below =
      subst
        (λ (x : FilePath).
          leads (seen ++ a ∷ []) (b ∷ ns) (put_node x n fs) ≡ leads (seen ++ a ∷ []) (b ∷ ns) fs)
        (append_assoc seen (a ∷ []) (b ∷ ns)) (leads-put_node (seen ++ a ∷ []) (b ∷ ns) n fs) in
    ground (arith, below, node_at_above seen a b ns n fs)
