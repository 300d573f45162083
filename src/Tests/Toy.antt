-- ===== src/Tests/Toy.antt =====
-- A platform and a world for the runs: one capability for one file that is to be made.
use mgk_governance_kernel.Prelude.{
  ℕ, ◌==◌, true, false, some, [], ◌∷◌, String, length, str_eq, head_or, codes, if◌then◌else◌,
}
use mgk_governance_kernel.Prelude.Int.{pos}
use mgk_governance_kernel.Json.{Value, Items, Fields, texts}
use mgk_governance_kernel.Platform.{
  Bytes, Raw, RawItems, RawFields, Platform, Loaded, read, malformed,
}
use mgk_governance_kernel.Models.{ActionRequest, SaxpContext, SaxpDecision, IssueResult}
use mgk_governance_kernel.State.{
  SecurityState, sqlite_header, schema_version_1, epoch_document, signed,
}
use mgk_governance_kernel.Ledger.{AuditLedger, genesis_hash, body_of}
use mgk_governance_kernel.Verifier.{CapabilityVerifier}
use mgk_governance_kernel.Resource.Files.{FileSystem, FilePath, directory, file, wrote}
use mgk_governance_kernel.Feedback.{FeedbackEngine}
use mgk_governance_kernel.Authority.{CapabilityAuthority, default_policy}
use mgk_governance_kernel.Executor.{CapabilityExecutor, World, Surroundings, intent_data}

abbrev pub sha : String
sha = "aaaaaaaaaaaaaaaaaaaaaaaaaaaaaaaaaaaaaaaaaaaaaaaaaaaaaaaaaaaaaaaa"

abbrev pub signer : String
signer = "ed25519:aaaaaaaaaaaaaaaaaaaaaaaaaaaaaaaaaaaaaaaaaaaaaaaaaaaaaaaaaaaaaaaa"

abbrev pub nonce : String
nonce = "00112233445566778899aabbccddeeff"

-- 64 bytes.
abbrev pub signature : Bytes
signature =
    0 ∷ 0 ∷ 0 ∷ 0 ∷ 0 ∷ 0 ∷ 0 ∷ 0 ∷ 0 ∷ 0 ∷ 0 ∷ 0 ∷ 0 ∷ 0 ∷ 0 ∷ 0 ∷ 0 ∷ 0 ∷ 0 ∷ 0 ∷ 0 ∷ 0 ∷ 0 ∷ 0
    ∷ 0 ∷ 0 ∷ 0 ∷ 0 ∷ 0 ∷ 0 ∷ 0 ∷ 0 ∷ 0 ∷ 0 ∷ 0 ∷ 0 ∷ 0 ∷ 0 ∷ 0 ∷ 0 ∷ 0 ∷ 0 ∷ 0 ∷ 0 ∷ 0 ∷ 0 ∷ 0 ∷ 0
    ∷ 0 ∷ 0 ∷ 0 ∷ 0 ∷ 0 ∷ 0 ∷ 0 ∷ 0 ∷ 0 ∷ 0 ∷ 0 ∷ 0 ∷ 0 ∷ 0 ∷ 0 ∷ 0 ∷ []

abbrev pub request : ActionRequest
request = record {
  request_id = "req-1";
  principal = "planner";
  audience = "executor";
  action = "resource.create";
  resource = "workspace/b";
  parameters = Fields.field "content_b64" (Value.str "BwcH") Fields.end;
}

-- The content of the request: three bytes.
abbrev pub contents : Bytes
contents = 7 ∷ 7 ∷ 7 ∷ []

abbrev pub binding : Fields
binding = Fields.field "path" (Value.str "workspace/b") (
    Fields.field "post_sha256" (Value.str sha) (
      Fields.field "post_size" (Value.int (pos 3))
        (Fields.field "state" (Value.str "absent") Fields.end)))

abbrev pub evidence : Value
evidence = Value.obj (
    Fields.field "context_digest" (Value.str sha) (
      Fields.field "policy_id" (Value.str "saxp") (
        Fields.field "reason_codes" (Value.arr (texts ("COHERENCE_GATE_SATISFIED" ∷ []))) (
          Fields.field "request_digest" (Value.str sha)
            (Fields.field "result" (Value.str "TEN_XEITO") Fields.end)))))

abbrev pub payload : Fields
payload = Fields.field "audience" (Value.str "executor") (
    Fields.field "authorization_epoch" (Value.int (pos 1)) (
      Fields.field "expires_at" (Value.int (pos 160)) (
        Fields.field "issued_at" (Value.int (pos 100)) (
          Fields.field "issuer" (Value.str "authority") (
            Fields.field "nonce" (Value.str nonce) (
              Fields.field "request_digest" (Value.str sha) (
                Fields.field "resource_binding" (Value.obj binding) (
                  Fields.field "saxp" evidence (
                    Fields.field "schema" (Value.str "mgk-capability/v1") (
                      Fields.field "scope"
                        (Value.obj (
                          Fields.field "action" (Value.str "resource.create")
                            (Fields.field "resource" (Value.str "workspace/b") Fields.end)))
                        (Fields.field "subject" (Value.str "planner")
                          (Fields.field "capability_id" (Value.str sha) Fields.end))))))))))))

abbrev pub capability : Value
capability = Value.obj (
    Fields.field "algorithm" (Value.str "Ed25519") (
      Fields.field "key_id" (Value.str signer) (
        Fields.field "payload" (Value.obj payload)
          (Fields.field "signature" (Value.str "sig") Fields.end))))

abbrev epoch_signed : ℕ → Value
epoch_signed n = signed (epoch_document (pos n) signer) "sig"

abbrev pub checkpoint : ℕ → String → Value
checkpoint n head =
    signed
      (Value.obj (
        Fields.field "count" (Value.int (pos n)) (
          Fields.field "head_hash" (Value.str head) (
            Fields.field "key_id" (Value.str signer) (
              Fields.field "schema" (Value.str "mgk-ledger-checkpoint/v1")
                (Fields.field "updated_at" (Value.int (pos 0)) Fields.end))))))
      "sig"

-- The first record of the audit ledger.
abbrev pub authorized : Value
authorized = Value.obj (
    body_of (intent_data request (Value.str sha)) "EXECUTION_AUTHORIZED" genesis_hash 1 (pos 111)
      (Fields.field "event_hash" (Value.str sha) Fields.end))

-- Another first record, of an event without data, which has the same hash here.
abbrev pub other_record : Value
other_record = Value.obj (
    body_of Fields.end "CAPABILITY_DENIED" genesis_hash 1 (pos 111)
      (Fields.field "event_hash" (Value.str sha) Fields.end))

-- What `json.loads` reads of a document.
unfoldable mutual
  pub raw : Value → Raw
  raw Value.null = Raw.null
  raw (Value.bool b) = Raw.bool b
  raw (Value.int i) = Raw.int i
  raw (Value.str s) = Raw.str s
  raw (Value.surrogates cs) = Raw.surrogates cs
  raw (Value.arr xs) = Raw.arr (raw_items xs)
  raw (Value.obj fs) = Raw.obj (raw_fields fs)
  raw Value.unsupported = Raw.null

  pub raw_items : Items → RawItems
  raw_items Items.nil = RawItems.nil
  raw_items (Items.cons x xs) = RawItems.cons (raw x) (raw_items xs)

  pub raw_fields : Fields → RawFields
  raw_fields Fields.end = RawFields.end
  raw_fields (Fields.field k v fs) = RawFields.field k (raw v) (raw_fields fs)

-- A document is named by what it begins with, an epoch and a checkpoint also by their number.
abbrev count_of : Value → ℕ
count_of (Value.int (pos n)) = n
count_of _ = 0

abbrev inner_tag : Value → Bytes
inner_tag (Value.obj (Fields.field k v fs)) =
    if str_eq k "epoch" then 2 ∷ count_of v ∷ [] else 3 ∷ count_of v ∷ []
inner_tag _ = 5 ∷ []

abbrev record_tag : Value → Bytes
record_tag (Value.obj Fields.end) = 6 ∷ []
record_tag _ = 4 ∷ []

abbrev pub dumps : Value → Bytes
dumps (Value.obj (Fields.field k v fs)) =
    if str_eq k "algorithm"
    then 1 ∷ []
    else if str_eq k "document"
    then inner_tag v
    else if str_eq k "data"
    then record_tag v
    else 5 ∷ []
dumps _ = 5 ∷ []

abbrev named : ℕ → ℕ → Loaded
named t n =
    if t == 1
    then read (raw capability)
    else if t == 2
    then read (raw (epoch_signed n))
    else if t == 3
    then read (raw (checkpoint n (if n == 0 then genesis_hash else sha)))
    else if t == 4
    then read (raw authorized)
    else if t == 6
    then read (raw other_record)
    else malformed

abbrev pub loads : Bytes → Loaded
loads [] = malformed
loads (t ∷ ns) = named t (head_or ns 0)

abbrev pub toy : Platform
toy = record {
  sha256 = λ c. sha;
  nfc = λ s. s;
  dumps = dumps;
  loads = loads;
  b64_encode = λ c. if length c == 64 then "sig" else "BwcH";
  b64_decode = λ s. if str_eq s "sig" then some signature else some contents;
  public_of = λ key. key;
  ed_sign = λ key message. signature;
  ed_verify = λ key sig message. true;
}

abbrev pub state : SecurityState
state = record {
  epoch_public_key = 9 ∷ [];
  expected_minimum_epoch = pos 1;
  store = record {
    header = some sqlite_header;
    readable = true;
    quick_check = "ok";
    schema_version = some schema_version_1;
    epoch_envelope = some (2 ∷ 1 ∷ []);
    consumed_nonces = [];
  };
}

-- An empty ledger with its first checkpoint.
abbrev pub ledger : AuditLedger
ledger = record {
  ledger_file = some [];
  checkpoint_file = some (3 ∷ 0 ∷ 10 ∷ []);
  public_key = 9 ∷ [];
  private_key = some (9 ∷ []);
}

abbrev pub files : FileSystem
files =
    ((codes "workspace" ∷ []), directory)
    ∷ ((codes "workspace" ∷ codes "a" ∷ []), file (7 ∷ []))
    ∷ []

abbrev pub world : World
world = record { state = state; audit = ledger; failure = ledger; files = files }

abbrev pub surroundings : Surroundings
surroundings = record {
  verify_at = pos 110;
  authorized_at = pos 111;
  completed_at = pos 112;
  denial_data_at = pos 113;
  denied_at = pos 114;
  others = λ s. s;
  outcomes = wrote 2 ∷ wrote 8 ∷ [];
}

abbrev pub verifier : CapabilityVerifier
verifier = record { public_key = 9 ∷ []; maximum_ttl_seconds = pos 300; clock_skew_seconds = pos 5 }

abbrev pub executor : CapabilityExecutor
executor = record { executor_id = "executor"; verifier = verifier }

-- A context that passes every gate.
abbrev pub context : SaxpContext
context = record {
  coherence_delta = pos 0;
  systemic_pressure = pos 3;
  threshold_k = pos 3;
  sentidino = pos 7000;
  information_complete = true;
  critical_uncertainty = false;
  control_risk = false;
  ethical_constraints_satisfied = true;
}

abbrev pub authority : CapabilityAuthority
authority = record {
  issuer = "authority";
  private_key = 9 ∷ [];
  saxp = record { policy_id = "saxp"; minimum_sentidino = pos 5000 };
  policy = default_policy;
  context_provider = λ r. context;
}

-- The security state once the nonce is consumed.
abbrev pub spent : SecurityState
spent = record state {
  store = record state.store {
    consumed_nonces = (record { nonce = nonce; capability_id = sha; consumed_at = pos 110 }) ∷ [];
  };
}

abbrev pub decision : SaxpDecision
decision = record {
  result = "TEN_XEITO";
  reason_codes = "COHERENCE_GATE_SATISFIED" ∷ [];
  request_digest = sha;
  context_digest = sha;
  policy_id = "saxp";
}

abbrev pub issued : IssueResult
issued = record { envelope = some (1 ∷ []); decision = decision; capability_id = some sha }

-- The ledger with one record.
abbrev pub recorded : AuditLedger
recorded = record ledger {
  ledger_file = some (4 ∷ 10 ∷ []);
  checkpoint_file = some (3 ∷ 1 ∷ 10 ∷ []);
}

-- The same checkpoint, over the other record.
abbrev pub changed : AuditLedger
changed = record recorded { ledger_file = some (6 ∷ 10 ∷ []) }

-- The security state after a bump.
abbrev pub bumped : SecurityState
bumped = record state {
  expected_minimum_epoch = pos 2;
  store = record state.store { epoch_envelope = some (2 ∷ 2 ∷ []) };
}

abbrev pub path : FilePath
path = codes "workspace" ∷ codes "b" ∷ []

-- The content of the file `workspace/a` is replaced.
abbrev pub rewriting : Fields
rewriting = Fields.field "path" (Value.str "workspace/a") (
    Fields.field "post_sha256" (Value.str sha) (
      Fields.field "post_size" (Value.int (pos 3)) (
        Fields.field "pre_sha256" (Value.str sha) (
          Fields.field "pre_size" (Value.int (pos 1)) (
            Fields.field "pre_state" (Value.str "present")
              (Fields.field "state" (Value.str "write") Fields.end))))))

abbrev pub reading : Fields
reading = Fields.field "path" (Value.str "workspace/a") (
    Fields.field "sha256" (Value.str sha) (
      Fields.field "size" (Value.int (pos 1))
        (Fields.field "state" (Value.str "present") Fields.end)))

abbrev pub engine : FeedbackEngine
engine = record { weights = record { w0 = 4000; w1 = 3000; w2 = 3000 }; history = [] }

-- The payload is appended to the file `workspace/a`.
abbrev pub extending : Fields
extending = Fields.field "path" (Value.str "workspace/a") (
    Fields.field "post_sha256" (Value.str sha) (
      Fields.field "post_size" (Value.int (pos 4)) (
        Fields.field "pre_sha256" (Value.str sha) (
          Fields.field "pre_size" (Value.int (pos 1))
            (Fields.field "state" (Value.str "append") Fields.end)))))
