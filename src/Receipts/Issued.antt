-- ===== src/Receipts/Issued.antt =====
-- What a call of issueUsageReceipt of apps/gateway/src/lib/receipts.ts leaves.
use Prim.Native.String.{String}
use modelforge_ai.Base.{
  ℕ, ◌≡◌, refl, ap, ◌⊎◌, inl, inr, Bool, none, some, [], ◌∷◌, ◌++◌, Bool-cases, Option-cases,
}
use modelforge_ai.Base.Int.{ℤ}
use modelforge_ai.Base.Text.{text_eq}
use modelforge_ai.Base.Preds.{find, any}
use modelforge_ai.Base.Result.{Result, ok, err}
use modelforge_ai.Signing.Canonical.{CanonicalError}
use modelforge_ai.Signing.Provider.{LocalFileSigningProvider, PayloadSignature}
use modelforge_ai.Receipts.Issue.{
  UsageReceipt, ReceiptDb, ReceiptError, not_canonical, unique_violation, IssueInput, is_for,
  latest_receipt, hash_of, ensure_signing_key, has_key, has_event, receipt_row, create_signed,
  issue_usage_receipt, signed_payload, canonical_payload,
}

ensure-receipts :
    (p : LocalFileSigningProvider) (directory : String) (db : ReceiptDb)
    → (ensure_signing_key p directory db).receipts ≡ db.receipts
unfolding ensure_signing_key
ensure-receipts p directory db = elim (Bool-cases (any (has_key p.key_id) db.keys)) [
  | inl known ↦ rw known refl
  | inr unknown ↦ rw unknown refl
]

module _ (print_decimal : ℕ → String) (iso : ℕ → String) (quote : String → String)
    (print : ℤ → String) (before : String → String → Bool) (sha256_hex : String → String)
    (crypto_sign : String → String → String) (crypto_verify : String → String → String → Bool) where
  abbrev pub issue :
      LocalFileSigningProvider
      → String
      → IssueInput
      → String
      → ℕ
      → ReceiptDb
      → Result ReceiptError UsageReceipt × ReceiptDb
  issue p directory input id now db =
      issue_usage_receipt print_decimal iso quote print before sha256_hex crypto_sign crypto_verify
        p directory input id now db

  abbrev signed_with :
      LocalFileSigningProvider → IssueInput → ℕ → Result CanonicalError PayloadSignature
  signed_with p input now =
      signed_payload print_decimal iso quote print before sha256_hex crypto_sign crypto_verify p
        input now

  -- A receipt of this call: signed, behind the others, with the hash of the latest.
  abbrev pub IsNew :
      LocalFileSigningProvider
      → IssueInput
      → ℕ
      → ReceiptDb
      → Result ReceiptError UsageReceipt × ReceiptDb
      → Type 0
  IsNew p input now db (result, after) =
      (r : UsageReceipt) × (signed : PayloadSignature) × ((result ≡ ok r)
        × (after.receipts ≡ db.receipts ++ (r ∷ []))
        × (r.previous_hash ≡ hash_of (latest_receipt db.receipts))
        × (r.issued_at ≡ now)
        × (r.request_id ≡ input.request.id)
        × (signed_with p input now ≡ ok signed)
        × (record {
          key_id = r.signing_key_id;
          signature = r.signature;
          payload_hash = r.payload_hash;
          algorithm = r.algorithm;
        }
            ≡ signed)
        × (canonical_payload print_decimal iso quote print before sha256_hex crypto_sign
              crypto_verify input now
            ≡ ok r.payload_canonical))

  -- The receipt is there already; or the call throws and leaves the receipts; or it adds one.
  abbrev pub IsIssue :
      LocalFileSigningProvider
      → IssueInput
      → ℕ
      → ReceiptDb
      → Result ReceiptError UsageReceipt × ReceiptDb
      → Type 0
  IsIssue p input now db (result, after) =
      ((r : UsageReceipt) × ((find (is_for input.request.id) db.receipts ≡ some r)
          × (result ≡ ok r)
          × (after ≡ db)))
      ⊎ ((find (is_for input.request.id) db.receipts ≡ none)
          × (((e : ReceiptError) × ((result ≡ err e) × (after.receipts ≡ db.receipts)))
              ⊎ IsNew p input now db (result, after)))

  pub issue-cases :
      (p : LocalFileSigningProvider) (directory : String) (input : IssueInput) (id : String)
      (now : ℕ) (db : ReceiptDb)
      → IsIssue p input now db (issue p directory input id now db)
  unfolding issue_usage_receipt
  issue-cases p directory input id now db =
      elim (Option-cases (find (is_for input.request.id) db.receipts)) [
        | inr (r, found) ↦ rw found (inl (r, (refl, refl, refl)))
        | inl missed ↦ rw missed (
            inr (
              refl,
              created (signed_with p input now) refl
                  (canonical_payload print_decimal iso quote print before sha256_hex crypto_sign
                    crypto_verify input now)
                  refl,
            ))
      ]
    where
      db' : ReceiptDb
      db' = ensure_signing_key p directory db

      same : db'.receipts ≡ db.receipts
      same = ensure-receipts p directory db

      row : PayloadSignature → String → UsageReceipt
      row signed canonical =
          receipt_row input id now (hash_of (latest_receipt db.receipts)) signed canonical

      created :
          (s : Result CanonicalError PayloadSignature)
          → signed_with p input now ≡ s
          → (c : Result CanonicalError String)
          → canonical_payload print_decimal iso quote print before sha256_hex crypto_sign
              crypto_verify input now
            ≡ c
          → (((e : ReceiptError) × (((create_signed input id now
                      (hash_of (latest_receipt db.receipts))
                      s
                      c
                      db').0
                    ≡ err e)
                  × ((create_signed input id now
                        (hash_of (latest_receipt db.receipts))
                        s
                        c
                        db').1.receipts
                      ≡ db.receipts)))
              ⊎ IsNew p input now db
                  (create_signed input id now (hash_of (latest_receipt db.receipts)) s c db'))
      created (err e) q c k = inl (not_canonical e, (refl, same))
      created (ok signed) q (err e) k = inl (not_canonical e, (refl, same))
      created (ok signed) q (ok canonical) k =
          elim (Bool-cases (any (has_event input.usage_event_id) db'.receipts)) [
            | inl taken ↦ rw taken (inl (unique_violation, (refl, same)))
            | inr free ↦ rw free (
                inr (
                  row signed canonical,
                  signed,
                  (
                    refl,
                    ap (λ rs. rs ++ (row signed canonical ∷ [])) same,
                    refl,
                    refl,
                    refl,
                    q,
                    refl,
                    k,
                  ),
                ))
          ]
