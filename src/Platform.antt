-- ===== src/Platform.antt =====
-- What the kernel takes from other code: hashlib's SHA-256, unicodedata's NFC, the base64 and json
-- modules, and the Ed25519 of the `cryptography` package. They are parameters of the model.
use mgk_governance_kernel.Prelude.{ℕ, Bool, Option, List, String}
use mgk_governance_kernel.Errors.{Error}
use mgk_governance_kernel.Json.{Value}
use mgk_governance_kernel.Prelude.Int.{ℤ}

abbrev pub Bytes : Type 0
Bytes = List ℕ

-- What `json.loads` has read before the hooks of the caller: a number with a fraction or an
-- exponent, NaN and the infinities, and objects with every pair in order.
mutual
  pub data Raw : Type 0 where
    null : Raw
    bool : Bool → Raw
    int : ℤ → Raw
    float : Raw
    constant : Raw
    str : String → Raw
    surrogates : List ℕ → Raw
    arr : RawItems → Raw
    obj : RawFields → Raw

  pub data RawItems : Type 0 where
    nil : RawItems
    cons : Raw → RawItems → RawItems

  pub data RawFields : Type 0 where
    end : RawFields
    field : String → Raw → RawFields → RawFields

-- What the decoding and the reading answer: a document; or a UnicodeError or a JSONDecodeError; or
-- another exception, as the ValueError on an integer with too many digits.
pub data Loaded : Type 0 where
  read : Raw → Loaded
  malformed : Loaded
  raised : Error → Loaded

pub record Platform : Type 0 where
  -- `hashlib.sha256(data).hexdigest()`
  pub sha256 : Bytes → String
  -- `unicodedata.normalize("NFC", text)`
  pub nfc : String → String
  -- `json.dumps(value, ensure_ascii=False, allow_nan=False, separators=(",", ":"),
  -- sort_keys=True).encode("utf-8", "strict")`, for a value that `_validate` accepts
  pub dumps : Value → Bytes
  -- `json.loads(data.decode("utf-8", "strict"))` before the hooks
  pub loads : Bytes → Loaded
  -- `base64.urlsafe_b64encode(data).rstrip(b"=").decode("ascii")`, and
  -- `base64.b64decode(text + padding, altchars=b"-_", validate=True)`
  pub b64_encode : Bytes → String
  pub b64_decode : String → Option Bytes
  -- the raw public key of a private key, `key.sign` and `key.verify`
  pub public_of : Bytes → Bytes
  pub ed_sign : Bytes → Bytes → Bytes
  pub ed_verify : Bytes → Bytes → Bytes → Bool
