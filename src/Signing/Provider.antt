-- ===== src/Signing/Provider.antt =====
-- LocalFileSigningProvider of packages/platform/src/signing.ts. The key pair is generated, and texts are
-- signed, verified and encoded, by node:crypto and Buffer: these are parameters, and so are the hash and
-- the canonical text's parts. The directory is the two key files.
use Prim.Native.String.{String}
use modelforge_ai.Base.{◌≡◌, refl, subst, arith, Bool, true, false, not, ◌||◌, if◌then◌else◌}
use modelforge_ai.Base.Int.{ℤ}
use modelforge_ai.Base.Text.{◌==◌, text_eq, beq_refl}
use modelforge_ai.Base.Result.{Result, ok, err, ◌>>=◌, >>=-eq-ok}
use modelforge_ai.Signing.Canonical.{
  Value, object, Fields, CanonicalError, canonical_stringify, hash_canonical_payload,
}
use modelforge_ai.Signing.Reorder.{IsOrder, Reordered, canonical_stringify-Reordered}

pub record PayloadSignature : Type 0 where
  pub key_id : String
  pub signature : String
  pub payload_hash : String
  pub algorithm : String

-- SIGNING_ALGORITHM
abbrev pub signing_algorithm : String
signing_algorithm = "Ed25519"

pub record LocalFileSigningProvider : Type 0 where
  pub key_id : String
  pub public_key : String
  pub private_key : String

-- A file that cannot be read: ENOENT, or another error.
pub data FileError : Type 0 where
  not_found unreadable : FileError

pub record KeyFiles : Type 0 where
  pub private_file : Result FileError String
  pub public_file : Result FileError String

module _ (sha256_hex first_32 : String → String) where
  abbrev pub provider_of : String → String → LocalFileSigningProvider
  provider_of private public = record {
    key_id = first_32 (sha256_hex public);
    public_key = public;
    private_key = private;
  }

  -- `code !== "ENOENT"`: other errors are thrown.
  unfoldable pub generate_on_missing :
      String × String
      → FileError
      → KeyFiles
      → Result FileError (LocalFileSigningProvider × KeyFiles)
  generate_on_missing keys unreadable files = err unreadable
  generate_on_missing (private, public) not_found files =
      ok (provider_of private public, record { private_file = ok private; public_file = ok public })

  -- The constructor; the pair is what generateKeyPairSync would give, the private key first.
  unfoldable pub open_provider :
      String × String → KeyFiles → Result FileError (LocalFileSigningProvider × KeyFiles)
  open_provider keys files = elim files.private_file [
    | err e ↦ generate_on_missing keys e files
    | ok private ↦ elim files.public_file [
      | err e ↦ generate_on_missing keys e files
      | ok public ↦ ok (provider_of private public, files)
    ]
  ]

  reopened :
      (keys keys' : String × String) (private public : Result FileError String)
      (opened : LocalFileSigningProvider × KeyFiles)
      → open_provider keys (record { private_file = private; public_file = public }) ≡ ok opened
      → open_provider keys' opened.1 ≡ ok opened
  unfolding open_provider generate_on_missing
  reopened keys keys' (ok a) (ok b) opened h =
      let e : (provider_of a b, record { private_file = ok a; public_file = ok b }) ≡ opened =
        cc h in
      subst (λ q. open_provider keys' q.1 ≡ ok q) e refl
  reopened (a, b) keys' (ok c) (err not_found) opened h =
      let e : (provider_of a b, record { private_file = ok a; public_file = ok b }) ≡ opened =
        cc h in
      subst (λ q. open_provider keys' q.1 ≡ ok q) e refl
  reopened (a, b) keys' (err not_found) public opened h =
      let e : (provider_of a b, record { private_file = ok a; public_file = ok b }) ≡ opened =
        cc h in
      subst (λ q. open_provider keys' q.1 ≡ ok q) e refl
  reopened keys keys' (ok c) (err unreadable) opened h = cc
  reopened keys keys' (err unreadable) public opened h = cc

  -- Once a provider is opened, its directory has a key pair: a provider that is opened on it again is
  -- the same, whatever pair would be generated, and the files stay.
  pub open_provider-again :
      (keys keys' : String × String) (files : KeyFiles)
      (opened : LocalFileSigningProvider × KeyFiles)
      → open_provider keys files ≡ ok opened
      → open_provider keys' opened.1 ≡ ok opened
  open_provider-again keys keys' files opened h =
      reopened keys keys' files.private_file files.public_file opened h

pub record SigningProvider : Type 0 where
  pub sign : Value → Result CanonicalError PayloadSignature
  pub verify : Value → PayloadSignature → Result CanonicalError Bool

-- The exported functions signPayload and verifyPayload.
unfoldable pub sign_with : SigningProvider → Value → Result CanonicalError PayloadSignature
sign_with provider payload = provider.sign payload

unfoldable pub verify_with : SigningProvider → Value → PayloadSignature → Result CanonicalError Bool
verify_with provider payload signed = provider.verify payload signed

module _ (quote : String → String) (print : ℤ → String) (before : String → String → Bool)
    (sha256_hex : String → String) (crypto_sign : String → String → String)
    (crypto_verify : String → String → String → Bool) where
  abbrev pub canonical : Value → Result CanonicalError String
  canonical v = canonical_stringify quote print before v

  -- The signature is kept as its base64url text: `crypto_sign key text` encodes, and
  -- `crypto_verify key text signature` decodes; it is false where the source catches an error.
  unfoldable pub sign_payload :
      LocalFileSigningProvider → Value → Result CanonicalError PayloadSignature
  sign_payload p payload = canonical payload >>= λ text.
      hash_canonical_payload quote print before sha256_hex payload >>= λ hash. ok (record {
        key_id = p.key_id;
        signature = crypto_sign p.private_key text;
        payload_hash = hash;
        algorithm = signing_algorithm;
      })

  unfoldable pub verify_payload :
      LocalFileSigningProvider → Value → PayloadSignature → Result CanonicalError Bool
  verify_payload p payload signed =
      if not (signed.algorithm == signing_algorithm) || not (signed.key_id == p.key_id)
      then ok false
      else (hash_canonical_payload quote print before sha256_hex payload >>= λ hash.
          if not (signed.payload_hash == hash) then ok false else (elim (canonical payload) [
            | ok text ↦ ok (crypto_verify p.public_key text signed.signature)
            | err e ↦ ok false
          ]))

  -- The provider behind the interface.
  unfoldable pub local_provider : LocalFileSigningProvider → SigningProvider
  local_provider p = record { sign = sign_payload p; verify = verify_payload p }

  -- If the primitives verify what they have signed with the provider's keys, then what
  -- `signPayload` gives for a payload verifies.
  pub verify_payload-sign :
      (p : LocalFileSigningProvider) (payload : Value) (signed : PayloadSignature)
      → ((message : String)
          → crypto_verify p.public_key message (crypto_sign p.private_key message) ≡ true)
      → sign_with (local_provider p) payload ≡ ok signed
      → verify_with (local_provider p) payload signed ≡ ok true
  unfolding local_provider sign_with verify_with sign_payload verify_payload hash_canonical_payload
  verify_payload-sign p payload signed verifies h =
      let (message, written, h') = >>=-eq-ok (canonical payload) _ h in
      let shape : record {
        key_id = p.key_id;
        signature = crypto_sign p.private_key message;
        payload_hash = sha256_hex message;
        algorithm = signing_algorithm;
      }
          ≡ signed =
        ground (arith, h', written) in
      subst (λ s. verify_payload p payload s ≡ ok true) shape
        (rw written
          (ground (arith, verifies message, beq_refl p.key_id, beq_refl (sha256_hex message))))

  -- What is signed is the canonical text, and the hash is its hash.
  pub sign_payload-parts :
      (p : LocalFileSigningProvider) (payload : Value) (text : String) (signed : PayloadSignature)
      → ((message : String)
          → crypto_verify p.public_key message (crypto_sign p.private_key message) ≡ true)
      → canonical payload ≡ ok text
      → sign_payload p payload ≡ ok signed
      → (signed.payload_hash ≡ sha256_hex text)
        × (crypto_verify p.public_key text signed.signature ≡ true)
  unfolding sign_payload hash_canonical_payload
  sign_payload-parts p payload text signed verifies written h =
      let shape : record {
        key_id = p.key_id;
        signature = crypto_sign p.private_key text;
        payload_hash = sha256_hex text;
        algorithm = signing_algorithm;
      }
          ≡ signed =
        ground (arith, h, written) in
      subst
        (λ (s : PayloadSignature).
          (s.payload_hash ≡ sha256_hex text) × (crypto_verify p.public_key text s.signature ≡ true))
        shape (refl, verifies text)

  -- A signature is of the canonical text: for the same fields in another order it is the same.
  sign_payload-Reordered :
      (p : LocalFileSigningProvider) (fs gs : Fields)
      → IsOrder before
      → Reordered fs gs
      → sign_payload p (object fs) ≡ sign_payload p (object gs)
  unfolding sign_payload hash_canonical_payload
  sign_payload-Reordered p fs gs order r =
      rw (canonical_stringify-Reordered quote print before order fs gs r) refl
