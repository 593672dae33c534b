-- ===== src/Receipts/Examples.antt =====
-- Tests of the receipts, and their theorems at concrete inputs.
use Prim.Native.String.{String, ◌++◌ as ◌^^◌}
use modelforge_ai.Base.{ℕ, ◌≡◌, refl, Bool, true, false, none, some, [], ◌∷◌, arith, inl, inr}
use modelforge_ai.Base.Int.{ℤ}
use modelforge_ai.Base.Text.{◌==◌, text_eq, beq_refl}
use modelforge_ai.Base.Result.{Result, ok}
use modelforge_ai.Requests.Execution.{InferenceRequest, succeeded}
use modelforge_ai.Signing.Provider.{LocalFileSigningProvider, sign_payload}
use modelforge_ai.Signing.Canonical.{
  canonical_stringify, serialize, sort_entries, insert_entry, entry_texts, braces, join,
  hash_canonical_payload,
}
use modelforge_ai.Receipts.Issue.{
  UsageReceipt, ReceiptDb, ReceiptError, IssueInput, receipt_payload, issue_usage_receipt,
  latest_receipt, ensure_signing_key,
}
use modelforge_ai.Receipts.Chain.{IsLedger, IsLater, receipt_count}
use modelforge_ai.Receipts.Issued.{issue}
use modelforge_ai.Receipts.Ledger.{
  IsVerified, issue_usage_receipt-IsLedger, issue_usage_receipt-again, issue_usage_receipt-verifies,
}

abbrev text_of_number : ℕ → String
text_of_number n = "1"

abbrev text_of_integer : ℤ → String
text_of_integer n = "1"

abbrev plain : String → String
plain s = s

abbrev any_order : String → String → Bool
any_order a b = true

abbrev sign_plain : String → String → String
sign_plain key message = message

abbrev verify_plain : String → String → String → Bool
verify_plain key message signature = message == signature

abbrev a_provider : LocalFileSigningProvider
a_provider = record { key_id = "k1"; public_key = "pub"; private_key = "priv" }

abbrev a_request : InferenceRequest
a_request = record {
  id = "r1";
  customer_id = "c1";
  api_key_id = "a1";
  status = succeeded;
  requested_model_id = none;
  requested_model_slug = "auto";
  resolved_model_id = none;
  resolved_model_slug = some "m1";
  pricing_version_id = none;
  policy_version_id = none;
  policy_decision_hash = none;
  prompt_tokens = 3;
  completion_tokens = 4;
  cost_micros = 5;
  queue_ms = 0;
  cold_start_ms = 0;
  ttft_ms = none;
  generation_ms = 0;
  latency_ms = 0;
  finish_reason = some "stop";
  error_code = none;
  error_message = none;
  stream = false;
  node_id = none;
  started_at = none;
  completed_at = none;
}

abbrev an_input : IssueInput
an_input = record { request = a_request; usage_event_id = some "u1" }

abbrev old_receipt : UsageReceipt
old_receipt = record {
  id = "x0";
  request_id = "r0";
  usage_event_id = none;
  payload_canonical = "{}";
  payload_hash = "h0";
  signature = "s0";
  algorithm = "Ed25519";
  signing_key_id = "k1";
  previous_hash = none;
  issued_at = 10;
}

abbrev one_receipt : ReceiptDb
one_receipt = record { receipts = old_receipt ∷ []; keys = []; receipt_ids = [] }

one_receipt-IsLedger : IsLedger one_receipt.receipts
unfolding receipt_count
one_receipt-IsLedger = ((refl, tt, tt), λ request. ground arith)

at_twenty : IsLater 20 one_receipt.receipts
at_twenty r (inl e) = rw e (omega arith)
at_twenty r (inr m) = absurd m.1

issue_usage_receipt-IsLedger_example :
    IsLedger
      (issue text_of_number text_of_number plain text_of_integer any_order plain sign_plain
        verify_plain a_provider "keys" an_input "x1" 20 one_receipt).1.receipts
issue_usage_receipt-IsLedger_example =
    issue_usage_receipt-IsLedger text_of_number text_of_number plain text_of_integer any_order plain
      sign_plain verify_plain a_provider "keys" an_input "x1" 20 one_receipt one_receipt-IsLedger
      at_twenty

abbrev issued : Result ReceiptError UsageReceipt × ReceiptDb
issued =
    issue text_of_number text_of_number plain text_of_integer any_order plain sign_plain
      verify_plain a_provider "keys" an_input "x1" 20 one_receipt

abbrev written : String
written =
    "{version:1,requestId:r1,customerId:c1,apiKeyId:a1,requestedModel:auto,resolvedModel:m1,"
    ^^ "promptTokens:1,completionTokens:1,costMicros:1,finishReason:stop,status:SUCCEEDED,"
    ^^ "usageEventId:u1,issuedAt:1}"

abbrev new_receipt : UsageReceipt
new_receipt = record {
  id = "x1";
  request_id = "r1";
  usage_event_id = some "u1";
  payload_canonical = written;
  payload_hash = written;
  signature = written;
  algorithm = "Ed25519";
  signing_key_id = "k1";
  previous_hash = some "h0";
  issued_at = 20;
}

issued_run : issued.0 ≡ ok new_receipt
unfolding issue_usage_receipt latest_receipt ensure_signing_key receipt_payload sign_payload
    canonical_stringify serialize sort_entries insert_entry entry_texts braces join
    hash_canonical_payload
issued_run = refl

issue_usage_receipt-again_example :
    issue text_of_number text_of_number plain text_of_integer any_order plain sign_plain
      verify_plain a_provider "keys"
      (record an_input { usage_event_id = none })
      "x2"
      30
      issued.1
    ≡ (ok new_receipt, issued.1)
issue_usage_receipt-again_example =
    issue_usage_receipt-again text_of_number text_of_number plain text_of_integer any_order plain
      sign_plain verify_plain a_provider "keys" an_input (record an_input { usage_event_id = none })
      "x1" "x2" 20 30 one_receipt new_receipt refl issued_run

issue_usage_receipt-verifies_example :
    (issued.1.receipts ≡ old_receipt ∷ new_receipt ∷ [])
    × IsVerified text_of_number text_of_number plain text_of_integer any_order plain sign_plain
        verify_plain a_provider "keys" an_input 20 new_receipt
issue_usage_receipt-verifies_example =
    issue_usage_receipt-verifies text_of_number text_of_number plain text_of_integer any_order plain
      sign_plain verify_plain a_provider "keys" an_input "x1" 20 one_receipt new_receipt beq_refl
      refl issued_run
