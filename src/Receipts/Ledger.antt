-- ===== src/Receipts/Ledger.antt =====
-- The receipts of apps/gateway/src/lib/receipts.ts as a ledger: chained, one for a request, and verifiable.
use Prim.Native.String.{String}
use modelforge_ai.Base.{
  ℕ, ◌≡◌, refl, sym, ap, subst, ◌∙◌, inl, inr, Bool, true, none, some, [], ◌∷◌, ◌++◌,
}
use modelforge_ai.Base.Int.{ℤ}
use modelforge_ai.Base.Text.{text_eq, beq_refl}
use modelforge_ai.Base.Preds.{find}
use modelforge_ai.Base.Result.{Result, ok}
use modelforge_ai.Signing.Provider.{
  LocalFileSigningProvider, PayloadSignature, local_provider, sign_with, verify_with,
  verify_payload-sign, sign_payload-parts,
}
use modelforge_ai.Signing.Canonical.{canonical_stringify}
use modelforge_ai.Receipts.Chain.{IsLedger, IsLater, IsLedger-append, find-append}
use modelforge_ai.Receipts.Issue.{
  UsageReceipt, ReceiptDb, ReceiptError, IssueInput, is_for, issue_usage_receipt, signed_payload,
  receipt_payload,
}
use modelforge_ai.Receipts.Issued.{issue, issue-cases}

-- What a receipt keeps of the signature.
abbrev pub signature_of : UsageReceipt → PayloadSignature
signature_of r = record {
  key_id = r.signing_key_id;
  signature = r.signature;
  payload_hash = r.payload_hash;
  algorithm = r.algorithm;
}

module _ (print_decimal : ℕ → String) (iso : ℕ → String) (quote : String → String)
    (print : ℤ → String) (before : String → String → Bool) (sha256_hex : String → String)
    (crypto_sign : String → String → String) (crypto_verify : String → String → String → Bool)
    (p : LocalFileSigningProvider) (directory : String) where
  abbrev issues : IssueInput → String → ℕ → ReceiptDb → Result ReceiptError UsageReceipt × ReceiptDb
  issues input id now db =
      issue print_decimal iso quote print before sha256_hex crypto_sign crypto_verify p directory
        input id now db

  -- A call of issueUsageReceipt later than any receipt, whether it succeeds or throws, keeps the receipts
  -- chained, each with the hash of the one before, and leaves no request with two of them.
  pub issue_usage_receipt-IsLedger :
      (input : IssueInput) (id : String) (now : ℕ) (db : ReceiptDb)
      → IsLedger db.receipts
      → IsLater now db.receipts
      → IsLedger
          (issue print_decimal iso quote print before sha256_hex crypto_sign crypto_verify p
            directory input id now db).1.receipts
  issue_usage_receipt-IsLedger input id now db h later =
      elim (issue-cases print_decimal iso quote print before sha256_hex crypto_sign crypto_verify p
        directory input id now db) [
          | inl (r, (found, e, same)) ↦ subst (λ (d : ReceiptDb). IsLedger d.receipts) (sym same) h
          | inr (missed, inl (e, (thrown, same))) ↦ subst IsLedger (sym same) h
          | inr (missed, inr (r, signed, (e, rows, linked, at, whose, _, _, _))) ↦
              subst IsLedger (sym rows) (
                IsLedger-append db.receipts r h linked
                  (subst (λ t. IsLater t db.receipts) (sym at) later)
                  (subst (λ q. find (is_for q) db.receipts ≡ none) (sym whose) missed))
        ]

  found_again :
      (input input' : IssueInput) (id' : String) (now' : ℕ) (db : ReceiptDb) (r : UsageReceipt)
      → input'.request.id ≡ input.request.id
      → find (is_for input.request.id) db.receipts ≡ some r
      → issues input' id' now' db ≡ (ok r, db)
  unfolding issue_usage_receipt
  found_again input input' id' now' db r same found = rw (same, found) refl

  -- Once a receipt is given for a request, a later call for the request, with any other fields, id, time and
  -- usage event, gives the same receipt and changes nothing.
  pub issue_usage_receipt-again :
      (input input' : IssueInput) (id id' : String) (now now' : ℕ) (db : ReceiptDb)
      (r : UsageReceipt)
      → input'.request.id ≡ input.request.id
      → (issues input id now db).0 ≡ ok r
      → issues input' id' now' (issues input id now db).1 ≡ (ok r, (issues input id now db).1)
  issue_usage_receipt-again input input' id id' now now' db r same h =
      elim (issue-cases print_decimal iso quote print before sha256_hex crypto_sign crypto_verify p
        directory input id now db) [
          | inl (s, (found, e, unchanged)) ↦
              let q : s ≡ r = (let k = sym e ∙ h in cc) in
              found_again input input' id' now' (issues input id now db).1 r same (
                subst (λ (d : ReceiptDb). find (is_for input.request.id) d.receipts ≡ some r)
                  (sym unchanged) (found ∙ ap (λ x. some x) q))
          | inr (missed, inl (e, (thrown, _))) ↦ let k = sym thrown ∙ h in cc
          | inr (missed, inr (s, signed, (e, rows, linked, at, whose, _, _, _))) ↦
              let q : s ≡ r = (let k = sym e ∙ h in cc) in
              let own : is_for input.request.id s ≡ true =
                subst (λ x. is_for x s ≡ true) whose (beq_refl s.request_id) in
              found_again input input' id' now' (issues input id now db).1 r same (
                ap (find (is_for input.request.id)) rows
                ∙ find-append (is_for input.request.id) db.receipts s missed own
                ∙ ap (λ x. some x) q)
        ]

  -- The receipt and its signature verify for the payload of the request.
  abbrev pub IsVerified : IssueInput → ℕ → UsageReceipt → Type 0
  IsVerified input now r =
      (canonical_stringify quote print before (receipt_payload print_decimal iso input now)
        ≡ ok r.payload_canonical)
      × (r.payload_hash ≡ sha256_hex r.payload_canonical)
      × (crypto_verify p.public_key r.payload_canonical r.signature ≡ true)
      × (verify_with (local_provider quote print before sha256_hex crypto_sign crypto_verify p)
            (receipt_payload print_decimal iso input now) (signature_of r)
          ≡ ok true)

  signed-IsVerified :
      (input : IssueInput) (now : ℕ) (r : UsageReceipt)
      → ((message : String)
          → crypto_verify p.public_key message (crypto_sign p.private_key message) ≡ true)
      → signed_payload print_decimal iso quote print before sha256_hex crypto_sign crypto_verify p
          input now
        ≡ ok (signature_of r)
      → canonical_stringify quote print before (receipt_payload print_decimal iso input now)
        ≡ ok r.payload_canonical
      → IsVerified input now r
  unfolding local_provider sign_with
  signed-IsVerified input now r verifies signs text =
      let payload = receipt_payload print_decimal iso input now in
      let (hash, accepted) =
        sign_payload-parts quote print before sha256_hex crypto_sign crypto_verify p payload
          r.payload_canonical (signature_of r) verifies text signs in
      (
        text,
        hash,
        accepted,
        verify_payload-sign quote print before sha256_hex crypto_sign crypto_verify p payload
            (signature_of r) verifies signs,
      )

  -- If the primitives verify what they have signed with the provider's keys, then a receipt that a call
  -- adds to the table verifies on its own: its canonical payload is that of the request's payload, its hash
  -- is that of its canonical payload, its signature verifies for its canonical payload under the provider's
  -- public key, and so do its signature fields for the request's payload.
  pub issue_usage_receipt-verifies :
      (input : IssueInput) (id : String) (now : ℕ) (db : ReceiptDb) (r : UsageReceipt)
      → ((message : String)
          → crypto_verify p.public_key message (crypto_sign p.private_key message) ≡ true)
      → find (is_for input.request.id) db.receipts ≡ none
      → (issues input id now db).0 ≡ ok r
      → ((issues input id now db).1.receipts ≡ db.receipts ++ (r ∷ [])) × IsVerified input now r
  issue_usage_receipt-verifies input id now db r verifies missed h =
      elim (issue-cases print_decimal iso quote print before sha256_hex crypto_sign crypto_verify p
        directory input id now db) [
          | inl (s, (found, _, _)) ↦ let k = sym missed ∙ found in cc
          | inr (_, inl (e, (thrown, _))) ↦ let k = sym thrown ∙ h in cc
          | inr (_, inr (s, signed, (e, rows, _, _, _, signs, shape, text))) ↦
              let q : s ≡ r = (let k = sym e ∙ h in cc) in
              let own = signs ∙ ap (λ x. ok x) (sym shape) in
              subst
                (λ (x : UsageReceipt).
                  ((issues input id now db).1.receipts ≡ db.receipts ++ (x ∷ []))
                  × IsVerified input now x)
                q (rows, signed-IsVerified input now s verifies own text)
        ]
