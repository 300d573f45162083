-- ===== src/Crypto.antt =====
-- src/mgk/crypto.py: keys, base64url and domain-separated signatures. A key is its raw bytes.
use Prim.Native.String.{◌++◌ as concat}
use mgk_governance_kernel.Prelude.{
  ℕ, Bool, false, ◌||◌, ◌&&◌, not, Option, none, some, [], ◌∷◌, ◌++◌, String, ◌==◌, leb, any,
  str_eq, length, codes,
}
use mgk_governance_kernel.Errors.{Result, ok, err, signature, ◌>>=◌, ◌>>◌, raise_if, or_raise}
use mgk_governance_kernel.Json.{Value}
use mgk_governance_kernel.Platform.{Bytes, Platform}

abbrev pub capability_domain : Bytes
capability_domain = codes "MGK-CAPABILITY-V1" ++ 0 ∷ []

abbrev pub audit_domain : Bytes
audit_domain = codes "MGK-AUDIT-CHECKPOINT-V1" ++ 0 ∷ []

abbrev pub epoch_domain : Bytes
epoch_domain = codes "MGK-EPOCH-V1" ++ 0 ∷ []

abbrev pub human_gate_domain : Bytes
human_gate_domain = codes "MGK-HUMAN-GATE-V1" ++ 0 ∷ []

-- `char.isspace()` for the ASCII spaces and the other code points that Python counts as space.
abbrev pub is_space : ℕ → Bool
is_space c =
    (leb 9 c && leb c 13)
    || ((leb 28 c && leb c 32)
        || (c == 133
            || (c == 160
                || (c == 5760
                    || ((leb 8192 c && leb c 8202)
                        || (c == 8232
                            || (c == 8233 || (c == 8239 || (c == 8287 || c == 12288)))))))))

-- A raw key of another length than 32 is refused.
unfoldable pub load_key : Bytes → Result Bytes
load_key raw = do raise_if (not (length raw == 32)) signature; ok raw

module _ (p : Platform) where
  unfoldable pub key_id : Bytes → String
  key_id key = concat "ed25519:" (p.sha256 key)

  unfoldable pub b64u_encode : Bytes → String
  b64u_encode value = p.b64_encode value

  -- `expected_size is not None and len(raw) != expected_size`.
  abbrev wrong_size : Option ℕ → Bytes → Bool
  wrong_size none raw = false
  wrong_size (some n) raw = not (length raw == n)

  unfoldable pub b64u_decode : String → Option ℕ → Result Bytes
  unfolding b64u_encode
  b64u_decode value expected_size = do
    raise_if (str_eq value "" || any is_space (codes value)) signature
    raise_if (any (λ c. c == b'=') (codes value)) signature
    raw ← or_raise (p.b64_decode value) signature
    raise_if (not (str_eq (b64u_encode raw) value)) signature
    raise_if (wrong_size expected_size raw) signature
    ok raw

  unfoldable pub sign : Bytes → Bytes → Bytes → String
  unfolding b64u_encode
  sign key domain message = b64u_encode (p.ed_sign key (domain ++ message))

  unfoldable pub verify : Bytes → Bytes → Bytes → String → Result (Unit {0})
  unfolding b64u_decode
  verify key domain message sig = do
    raw ← b64u_decode sig (some 64)
    raise_if (not (p.ed_verify key raw (domain ++ message))) signature

  -- A signature that comes from a document: `type(value) is not str` is a SignatureError.
  unfoldable pub verify_value : Bytes → Bytes → Bytes → Value → Result (Unit {0})
  verify_value key domain message (Value.str sig) = verify key domain message sig
  verify_value key domain message _ = err signature
