-- ===== src/Executor/Effects.antt =====
-- What a call of `execute` of src/mgk/executor.py does to the files, by the kind of the action.
use mgk_governance_kernel.Prelude.{
  ◌≡◌, refl, sym, ap, subst, true, some, none, String, str_eq, eq_iff, ◌⊎◌, inl, inr, Bool-cases,
  arith,
}
use mgk_governance_kernel.Errors.{Error, Result, ok, err}
use mgk_governance_kernel.Json.{Value, Fields, put_last}
use mgk_governance_kernel.Platform.{Bytes, Platform}
use mgk_governance_kernel.Models.{ActionRequest, ExecutionResult}
use mgk_governance_kernel.Ledger.{AuditLedger, append}
use mgk_governance_kernel.Resource.{create_bound}
use mgk_governance_kernel.Resource.Files.{FileSystem, FilePath, node_at, put_node, file}
use mgk_governance_kernel.Resource.Creating.{
  SameTree, IsCreatable, Creates, create_bound-Creates, create_then_remove,
}
use mgk_governance_kernel.Executor.{
  CapabilityExecutor, World, Surroundings, Output, intent_data, as_text, request_content,
  with_content, run_action, is_create, complete, finish, record_denial, conclude, execute,
}
use mgk_governance_kernel.Executor.Authorization.{
  IsDenied, IsExecuted, IsCommitted, execute-Guarded,
}

module _ (p : Platform) (env : Surroundings) (r : ActionRequest) where
  -- A creating action has made the file of the content, or has left every path as it was.
  abbrev CreateRun : Fields → FileSystem → Result Output × FileSystem → Type 0
  CreateRun b fs (ok output, fs') =
      (contents : Bytes) × (digest : String) × (request_content p r ≡ ok contents)
      × (output ≡ (Value.str digest, none))
      × (create_bound p env.outcomes b contents fs ≡ (ok digest, fs'))
  CreateRun b fs (err e, fs') = SameTree fs fs'

  as_text-Run :
      (out : Result String × FileSystem) (b : Fields) (contents : Bytes) (fs : FileSystem)
      → request_content p r ≡ ok contents
      → create_bound p env.outcomes b contents fs ≡ out
      → Creates p b contents fs out
      → CreateRun b fs (as_text out)
  as_text-Run (ok digest, fs') b contents fs read made c = (contents, digest, read, refl, made)
  as_text-Run (err e, fs') b contents fs read made c = c

  with_content-Run :
      (m : Result Bytes) (b : Fields) (fs : FileSystem)
      → request_content p r ≡ m
      → CreateRun b fs (with_content p m (λ c. as_text (create_bound p env.outcomes b c fs)) fs)
  with_content-Run (err e) b fs read = λ q. refl
  with_content-Run (ok contents) b fs read =
      as_text-Run (create_bound p env.outcomes b contents fs) b contents fs read refl
        (create_bound-Creates p env.outcomes b contents fs)

  run_action-create :
      (b : Fields) (fs : FileSystem)
      → is_create p r ≡ true
      → run_action p env.outcomes r b fs
        ≡ with_content p
            (request_content p r)
            (λ c. as_text (create_bound p env.outcomes b c fs))
            fs
  unfolding run_action
  run_action-create b fs create = elim (Bool-cases (str_eq r.action "resource.create")) [
    | inl h ↦ rw ((eq_iff r.action "resource.create").0 h) refl
    | inr h ↦
        let named : str_eq r.action "sandbox.create_record" ≡ true = ground (arith, create, h) in
        rw ((eq_iff r.action "sandbox.create_record").0 named) refl
  ]

  run_action-CreateRun :
      (b : Fields) (fs : FileSystem)
      → is_create p r ≡ true
      → CreateRun b fs (run_action p env.outcomes r b fs)
  run_action-CreateRun b fs create =
      subst (CreateRun b fs) (sym (run_action-create b fs create))
        (with_content-Run (request_content p r) b fs refl)

  -- The file of the content of the request is new, and is all that changes.
  pub record IsCreated (b : Fields) (fs fs' : FileSystem) (res : ExecutionResult) : Type 0 where
    pub contents : Bytes
    pub path : FilePath
    pub requested : request_content p r ≡ ok contents
    pub creatable : IsCreatable p b contents fs path
    pub new : node_at path fs ≡ none
    pub made : fs' ≡ put_node path (file contents) fs
    pub hashed : res.output_digest ≡ some (Value.str (p.sha256 contents))
    pub no_output : res.output ≡ none

  -- A creating call has executed and created the file, or has denied with every path as it was.
  abbrev pub Created : Fields → FileSystem → ExecutionResult × World → Type 0
  Created b fs out =
      (IsDenied out.0 × SameTree fs out.1.files)
      ⊎ (IsExecuted out.0 × IsCreated b fs out.1.files out.0)

  denied :
      (id : Value) (e : Error) (b : Fields) (fs : FileSystem) (w : World)
      → SameTree fs w.files
      → Created b fs (conclude p env r (some id) (err e, w))
  unfolding conclude record_denial
  denied id e b fs w same = inl (
    record {
      failed = refl;
      status = refl;
      no_authority = refl;
      no_digest = refl;
      no_output = refl;
    },
    same,
  )

  complete-Created :
      (m : Result String × AuditLedger) (id : Value) (b : Fields) (contents : Bytes)
      (digest : String) (fs : FileSystem) (w : World)
      → is_create p r ≡ true
      → request_content p r ≡ ok contents
      → create_bound p env.outcomes b contents fs ≡ (ok digest, w.files)
      → Created b fs (conclude p env r (some id) (complete p m r b (Value.str digest, none) w))
  unfolding complete conclude
  complete-Created (ok _, audit) id b contents digest fs w create read made =
      let (q, c, new, hashed, e) =
        subst (Creates p b contents fs) made (create_bound-Creates p env.outcomes b contents fs) in
      inr (
        record {
          succeeded = refl;
          status = refl;
          authority = refl;
          identified = (id, refl);
          digested = (Value.str digest, refl);
        },
        record {
          contents = contents;
          path = q;
          requested = read;
          creatable = c;
          new = new;
          made = e;
          hashed = ap (λ (d : String). some (Value.str d)) hashed;
          no_output = refl;
        },
      )
  complete-Created (err x, audit) id b contents digest fs w create read made =
      let (fs', removed, same) =
        create_then_remove p env.outcomes b contents fs w.files digest made in
      rw (create, removed) (denied id x b fs (record w { audit = audit; files = fs' }) same)

  finish-Created :
      (run : Result Output × FileSystem) (id : Value) (b : Fields) (fs : FileSystem) (w : World)
      → is_create p r ≡ true
      → CreateRun b fs run
      → Created b fs (conclude p env r (some id) (finish p run env r id b w))
  unfolding finish
  finish-Created (err e, fs') id b fs w create run = denied id e b fs (record w { files = fs' }) run
  finish-Created (ok output, fs') id b fs w create (contents, digest, read, shape, made) =
      rw shape (
        complete-Created
          (append p "EXECUTION_COMPLETED"
            (put_last "output_digest" (Value.str digest) (intent_data r id)) env.completed_at
            w.audit)
          id b contents digest fs (record w { files = fs' }) create read made)

  -- A call of a creating action is a transaction on the files, whatever fails in it, the record of the
  -- completion included, and whatever `os.write` does. It has either denied, with every path as it was;
  -- or it has executed a binding that was committed, and a file with exactly the content of the request,
  -- whose SHA-256 is the digest of the result, stands where nothing stood, and nothing else has changed.
  pub execute-create :
      (x : CapabilityExecutor) (envelope : Bytes) (w : World)
      → is_create p r ≡ true
      → (IsDenied (execute p x env envelope r w).0
          × SameTree w.files (execute p x env envelope r w).1.files)
        ⊎ ((b : Fields) × (id : Value) × (w' : World) × IsCommitted p x env envelope r w b id w'
            × IsExecuted (execute p x env envelope r w).0
            × IsCreated b w.files
                (execute p x env envelope r w).1.files
                (execute p x env envelope r w).0)
  execute-create x envelope w create = elim (execute-Guarded p x env envelope r w) [
    | inl (d, same) ↦ inl (d, λ q. ap (node_at q) same)
    | inr (b, id, w', c, e) ↦
        let out = subst (Created b w.files) (sym e) (
          finish-Created (run_action p env.outcomes r b w.files) id b w.files w' create
            (run_action-CreateRun b w.files create)) in
        elim out [
          | inl (d, same) ↦ inl (d, same)
          | inr (done, created) ↦ inr (b, id, w', c, done, created)
        ]
  ]
