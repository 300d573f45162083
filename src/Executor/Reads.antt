-- ===== src/Executor/Reads.antt =====
-- What a reading call of `execute` of src/mgk/executor.py gives, and that it changes no file.
use mgk_governance_kernel.Prelude.{
  ◌≡◌, refl, sym, ap, subst, true, false, some, String, str_eq, eq_iff, arith, ◌⊎◌, inl, inr,
  Bool-cases, member, ◌∙◌,
}
use mgk_governance_kernel.Errors.{Error, Result, ok, err}
use mgk_governance_kernel.Json.{Value, Fields, put_last}
use mgk_governance_kernel.Platform.{Bytes, Platform}
use mgk_governance_kernel.Models.{ActionRequest, ExecutionResult}
use mgk_governance_kernel.Ledger.{AuditLedger, append}
use mgk_governance_kernel.Verifier.{read_actions}
use mgk_governance_kernel.Resource.{read_bound}
use mgk_governance_kernel.Resource.Files.{FileSystem}
use mgk_governance_kernel.Executor.{
  CapabilityExecutor, World, Surroundings, Output, intent_data, read_output, run_action, is_create,
  complete, finish, record_denial, conclude, execute,
}
use mgk_governance_kernel.Executor.Authorization.{
  IsDenied, IsExecuted, IsCommitted, execute-Guarded,
}

module _ (p : Platform) (env : Surroundings) (r : ActionRequest) where
  run_action-read :
      (b : Fields) (fs : FileSystem)
      → member r.action read_actions ≡ true
      → (run_action p env.outcomes r b fs ≡ read_output p (read_bound p b fs) fs)
        × (is_create p r ≡ false)
  unfolding run_action
  run_action-read b fs reads = elim (Bool-cases (str_eq r.action "resource.read")) [
    | inl h ↦ rw ((eq_iff r.action "resource.read").0 h) (refl, refl)
    | inr h ↦ elim (Bool-cases (str_eq r.action "sandbox.read_file")) [
      | inl h' ↦ rw ((eq_iff r.action "sandbox.read_file").0 h') (refl, refl)
      | inr h' ↦
          let named : str_eq r.action "sandbox.read_record" ≡ true = ground (
            arith,
            reads,
            h,
            h',
            eq_iff r.action "resource.read",
            eq_iff "resource.read" r.action,
            eq_iff r.action "sandbox.read_file",
            eq_iff "sandbox.read_file" r.action,
            eq_iff r.action "sandbox.read_record",
            eq_iff "sandbox.read_record" r.action,
          ) in
          rw ((eq_iff r.action "sandbox.read_record").0 named) (refl, refl)
    ]
  ]

  -- The content that is bound, and its digest.
  pub record IsRead (b : Fields) (fs : FileSystem) (res : ExecutionResult) : Type 0 where
    pub content : Bytes
    pub read : read_bound p b fs ≡ ok content
    pub output : res.output ≡ some content
    pub hashed : res.output_digest ≡ some (Value.str (p.sha256 content))

  abbrev pub Read : Fields → FileSystem → ExecutionResult × World → Type 0
  Read b fs out = (out.1.files ≡ fs) × (IsDenied out.0 ⊎ (IsExecuted out.0 × IsRead b fs out.0))

  denied-Read :
      (id : Value) (e : Error) (b : Fields) (w : World)
      → Read b w.files (conclude p env r (some id) (err e, w))
  unfolding conclude record_denial
  denied-Read id e b w = (
    refl,
    inl (record {
      failed = refl;
      status = refl;
      no_authority = refl;
      no_digest = refl;
      no_output = refl;
    }),
  )

  complete-Read :
      (m : Result String × AuditLedger) (id : Value) (b : Fields) (c : Bytes) (w : World)
      → is_create p r ≡ false
      → read_bound p b w.files ≡ ok c
      → Read b w.files
          (conclude p env r (some id) (complete p m r b (Value.str (p.sha256 c), some c) w))
  unfolding complete conclude
  complete-Read (ok _, audit) id b c w create read = (
    refl,
    inr (
      record {
        succeeded = refl;
        status = refl;
        authority = refl;
        identified = (id, refl);
        digested = (Value.str (p.sha256 c), refl);
      },
      record { content = c; read = read; output = refl; hashed = refl },
    ),
  )
  complete-Read (err x, audit) id b c w create read =
      rw create (denied-Read id x b (record w { audit = audit }))

  finish-Read :
      (m : Result Bytes) (id : Value) (b : Fields) (w : World)
      → is_create p r ≡ false
      → read_bound p b w.files ≡ m
      → Read b w.files
          (conclude p env r (some id) (finish p (read_output p m w.files) env r id b w))
  unfolding finish
  finish-Read (err e) id b w create read = denied-Read id e b w
  finish-Read (ok c) id b w create read =
      complete-Read
        (append p "EXECUTION_COMPLETED"
          (put_last "output_digest" (Value.str (p.sha256 c)) (intent_data r id)) env.completed_at
          w.audit)
        id b c w create read

  -- A call of a reading action changes no file, whatever happens in it. It has either denied; or it has
  -- executed a binding that was committed, and gives the content that `read_bound` reads with that
  -- binding, and its SHA-256 as the digest.
  pub execute-IsRead :
      (x : CapabilityExecutor) (envelope : Bytes) (w : World)
      → member r.action read_actions ≡ true
      → ((execute p x env envelope r w).1.files ≡ w.files)
        × (IsDenied (execute p x env envelope r w).0
            ⊎ ((b : Fields) × (id : Value) × (w' : World) × IsCommitted p x env envelope r w b id w'
                × IsExecuted (execute p x env envelope r w).0
                × IsRead b w.files (execute p x env envelope r w).0))
  execute-IsRead x envelope w reads = elim (execute-Guarded p x env envelope r w) [
    | inl (d, same) ↦ (same, inl d)
    | inr (b, id, w', c, e) ↦
        let (run, create) = run_action-read b w.files reads in
        let files : w'.files ≡ w.files = ap (λ (o : World). o.files) c.world in
        let out =
          subst
            (λ (fs : FileSystem). Read b fs (
              conclude p env r (some id)
                (finish p (read_output p (read_bound p b fs) fs) env r id b w')))
            files (finish-Read (read_bound p b w'.files) id b w' create refl) in
        let (same, res) =
          subst (Read b w.files)
            (sym (
              e
              ∙ ap
                  (λ (o : Result Output × FileSystem).
                    conclude p env r (some id) (finish p o env r id b w'))
                  run))
            out in
        (same, elim res [ inl d ↦ inl d | inr (done, read) ↦ inr (b, id, w', c, done, read) ])
  ]
