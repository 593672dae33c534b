-- ===== src/Receipts/Issue.antt =====
-- ensureSigningKey and issueUsageReceipt of apps/gateway/src/lib/receipts.ts, on the tables of receipts and
-- keys (packages/db/prisma/schema.prisma). The provider is open already; the primitives of the signatures,
-- the printing of numbers and of ISO dates, and the generated id are parameters. The updates of requests are
-- kept as pairs of a request and its receipt.
use Prim.Native.String.{String}
use modelforge_ai.Base.{
  ℕ, Bool, true, false, Option, none, some, List, [], ◌∷◌, ◌++◌, map, if◌then◌else◌, ltb,
}
use modelforge_ai.Base.Int.{ℤ, pos}
use modelforge_ai.Base.Text.{◌==◌, text_eq}
use modelforge_ai.Base.Preds.{find, any}
use modelforge_ai.Base.Result.{Result, ok, err}
use modelforge_ai.Requests.Execution.{
  InferenceRequest, InferenceStatus, queued, running, succeeded, failed, canceled, rejected,
}
use modelforge_ai.Signing.Canonical.{
  Value, null, text, number, object, no_fields, field, CanonicalError, canonical_stringify,
}
use modelforge_ai.Signing.Provider.{
  LocalFileSigningProvider, PayloadSignature, signing_algorithm, sign_payload,
}

pub record UsageReceipt : Type 0 where
  pub id : String
  pub request_id : String
  pub usage_event_id : Option String
  pub payload_canonical : String
  pub payload_hash : String
  pub signature : String
  pub algorithm : String
  pub signing_key_id : String
  pub previous_hash : Option String
  pub issued_at : ℕ

pub record SigningKey : Type 0 where
  pub key_id : String
  pub algorithm : String
  pub public_key : String
  pub private_ref : String
  pub active : Bool
  pub revoked_at : Option ℕ

pub record ReceiptDb : Type 0 where
  pub receipts : List UsageReceipt
  pub keys : List SigningKey
  pub receipt_ids : List (String × String)

pub data ReceiptError : Type 0 where
  not_canonical : CanonicalError → ReceiptError
  -- The unique column usageEventId.
  unique_violation : ReceiptError

pub record IssueInput : Type 0 where
  pub request : InferenceRequest
  pub usage_event_id : Option String

abbrev pub is_for : String → UsageReceipt → Bool
is_for request r = r.request_id == request

-- orderBy: { issuedAt: "desc" }; of receipts issued at the same time, the first of the table.
abbrev pub later_of : UsageReceipt → Option UsageReceipt → UsageReceipt
later_of r none = r
later_of r (some s) = if ltb r.issued_at s.issued_at then s else r

unfoldable pub latest_receipt : List UsageReceipt → Option UsageReceipt
latest_receipt [] = none
latest_receipt (r ∷ rs) = some (later_of r (latest_receipt rs))

abbrev pub hash_of : Option UsageReceipt → Option String
hash_of none = none
hash_of (some r) = some r.payload_hash

abbrev pub key_row : LocalFileSigningProvider → String → SigningKey
key_row p directory = record {
  key_id = p.key_id;
  algorithm = signing_algorithm;
  public_key = p.public_key;
  private_ref = directory;
  active = true;
  revoked_at = none;
}

abbrev pub activate : String → SigningKey → SigningKey
activate id k = if k.key_id == id then record k { active = true; revoked_at = none } else k

abbrev pub has_key : String → SigningKey → Bool
has_key id k = k.key_id == id

unfoldable pub ensure_signing_key : LocalFileSigningProvider → String → ReceiptDb → ReceiptDb
ensure_signing_key p directory db =
    if any (has_key p.key_id) db.keys
    then record db { keys = map (activate p.key_id) db.keys }
    else record db { keys = db.keys ++ (key_row p directory ∷ []) }

abbrev pub text_or_null : Option String → Value
text_or_null none = null
text_or_null (some t) = text t

abbrev pub status_text : InferenceStatus → String
status_text queued = "QUEUED"
status_text running = "RUNNING"
status_text succeeded = "SUCCEEDED"
status_text failed = "FAILED"
status_text canceled = "CANCELED"
status_text rejected = "REJECTED"

abbrev pub same_event : Option String → Option String → Bool
same_event (some a) (some b) = a == b
same_event a b = false

abbrev pub has_event : Option String → UsageReceipt → Bool
has_event event r = same_event event r.usage_event_id

abbrev pub receipt_row :
    IssueInput → String → ℕ → Option String → PayloadSignature → String → UsageReceipt
receipt_row input id now previous signed canonical = record {
  id = id;
  request_id = input.request.id;
  usage_event_id = input.usage_event_id;
  payload_canonical = canonical;
  payload_hash = signed.payload_hash;
  signature = signed.signature;
  algorithm = signed.algorithm;
  signing_key_id = signed.key_id;
  previous_hash = previous;
  issued_at = now;
}

-- usageReceipt.create, and the update of the request.
abbrev pub create_receipt : UsageReceipt → ReceiptDb → Result ReceiptError UsageReceipt × ReceiptDb
create_receipt r db =
    if any (has_event r.usage_event_id) db.receipts then (err unique_violation, db) else (
      ok r,
      record db {
        receipts = db.receipts ++ (r ∷ []);
        receipt_ids = (r.request_id, r.id) ∷ db.receipt_ids;
      },
    )

abbrev pub create_signed :
    IssueInput
    → String
    → ℕ
    → Option String
    → Result CanonicalError PayloadSignature
    → Result CanonicalError String
    → ReceiptDb
    → Result ReceiptError UsageReceipt × ReceiptDb
create_signed input id now previous (err e) canonical db = (err (not_canonical e), db)
create_signed input id now previous (ok signed) (err e) db = (err (not_canonical e), db)
create_signed input id now previous (ok signed) (ok canonical) db =
    create_receipt (receipt_row input id now previous signed canonical) db

module _ (print_decimal : ℕ → String) (iso : ℕ → String) where
  unfoldable pub receipt_payload : IssueInput → ℕ → Value
  receipt_payload input now =
      let q = input.request in
      object (
        field "version" (number (pos 1)) (
          field "requestId" (text q.id) (
            field "customerId" (text q.customer_id) (
              field "apiKeyId" (text q.api_key_id) (
                field "requestedModel" (text q.requested_model_slug) (
                  field "resolvedModel" (text_or_null q.resolved_model_slug) (
                    field "promptTokens" (number (pos q.prompt_tokens)) (
                      field "completionTokens" (number (pos q.completion_tokens)) (
                        field "costMicros" (text (print_decimal q.cost_micros)) (
                          field "finishReason" (text_or_null q.finish_reason) (
                            field "status" (text (status_text q.status)) (
                              field "usageEventId" (text_or_null input.usage_event_id)
                                (field "issuedAt" (text (iso now)) no_fields)))))))))))))

  module _ (quote : String → String) (print : ℤ → String) (before : String → String → Bool)
      (sha256_hex : String → String) (crypto_sign : String → String → String)
      (crypto_verify : String → String → String → Bool) where
    abbrev pub signed_payload :
        LocalFileSigningProvider → IssueInput → ℕ → Result CanonicalError PayloadSignature
    signed_payload p input now =
        sign_payload quote print before sha256_hex crypto_sign crypto_verify p
          (receipt_payload input now)

    abbrev pub canonical_payload : IssueInput → ℕ → Result CanonicalError String
    canonical_payload input now = canonical_stringify quote print before (receipt_payload input now)

    -- Where there is no receipt for the request yet.
    abbrev pub issue_new :
        LocalFileSigningProvider
        → String
        → IssueInput
        → String
        → ℕ
        → ReceiptDb
        → Result ReceiptError UsageReceipt × ReceiptDb
    issue_new p directory input id now db =
        create_signed input id now (hash_of (latest_receipt db.receipts))
          (signed_payload p input now) (canonical_payload input now)
          (ensure_signing_key p directory db)

    abbrev pub issue_if_none :
        Option UsageReceipt
        → LocalFileSigningProvider
        → String
        → IssueInput
        → String
        → ℕ
        → ReceiptDb
        → Result ReceiptError UsageReceipt × ReceiptDb
    issue_if_none (some existing) p directory input id now db = (ok existing, db)
    issue_if_none none p directory input id now db = issue_new p directory input id now db

    unfoldable pub issue_usage_receipt :
        LocalFileSigningProvider
        → String
        → IssueInput
        → String
        → ℕ
        → ReceiptDb
        → Result ReceiptError UsageReceipt × ReceiptDb
    issue_usage_receipt p directory input id now db =
        issue_if_none (find (is_for input.request.id) db.receipts) p directory input id now db
