-- ===== src/Signing/Examples.antt =====
-- Canonical texts and signatures (packages/platform/src/canonical.ts, signing.ts, federation.ts) of
-- concrete values, with toy primitives.
use Prim.Native.String.{String, ◌++◌ as ◌+++◌}
use modelforge_ai.Base.{Bool}
use modelforge_ai.Base.Text.{◌==◌, text_eq}
use modelforge_ai.Signing.Canonical.{Value, no_fields, field, text, object}
use modelforge_ai.Signing.Provider.{LocalFileSigningProvider, PayloadSignature}

abbrev provider : LocalFileSigningProvider
provider = record { key_id = "id"; public_key = "key"; private_key = "key" }

abbrev payload : Value
payload = object (field "b" (text "x") (field "a" (text "y") no_fields))

abbrev b_last : String → String → Bool
b_last a b = b == "b"

abbrev signed : PayloadSignature
signed = record {
  key_id = "id";
  signature = "key" +++ "{a:y,b:x}";
  payload_hash = "{a:y,b:x}";
  algorithm = "Ed25519";
}
