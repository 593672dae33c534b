-- ===== src/Billing/Totals.antt =====
-- What an invoice of packages/billing/src/index.ts charges, and which rows it writes.
use Prim.Native.String.{String}
use modelforge_ai.Base.{
  ℕ, ◌+◌, ◌*◌, ◌/◌, ◌≤◌, ◌<◌, ◌≡◌, refl, subst, inl, inr, Option, none, some, List, [], ◌∷◌, arith,
  length, Bool-cases, Option-cases,
}
use modelforge_ai.Base.Text.{text_eq, nat_eq, beq_refl}
use modelforge_ai.Billing.Cost.{calculate_usage_cents}
use modelforge_ai.Billing.Invoice.{
  BilledEvent, Invoice, amount_from_requests, priced_lines, invoice_amount, is_invoice_of,
  upsert_invoice, generate_invoice,
}

-- The recorded costs, in micros.
abbrev pub total_micros : List BilledEvent → ℕ
total_micros [] = 0
total_micros (e ∷ es) =
    let rest = total_micros es in elim e.cost_micros [ none ↦ rest | some m ↦ m + rest ]

-- A request's cost is cut off at whole cents before the sum: the sum does not pass the recorded
-- costs, and falls short of them by less than a cent for each event.
pub amount_from_requests_bounds :
    (es : List BilledEvent)
    → (amount_from_requests es * 10_000 ≤ total_micros es)
      × (total_micros es ≤ amount_from_requests es * 10_000 + length es * 9_999)
unfolding amount_from_requests
amount_from_requests_bounds [] = omega arith
amount_from_requests_bounds (e ∷ es) = ground (arith, amount_from_requests_bounds es)

-- A cost, if one is recorded, is below one cent.
abbrev pub IsSubCent : Option ℕ → Type 0
IsSubCent none = Unit
IsSubCent (some m) = m < 10_000

abbrev pub AllSubCent : List BilledEvent → Type 0
AllSubCent [] = Unit
AllSubCent (e ∷ es) = IsSubCent e.cost_micros × AllSubCent es

amount_from_requests_sub_cent :
    (es : List BilledEvent) → AllSubCent es → amount_from_requests es ≡ 0
unfolding amount_from_requests
amount_from_requests_sub_cent [] h = refl
amount_from_requests_sub_cent (e ∷ es) (h, hs) = elim (Option-cases e.cost_micros) [
  | inl missing ↦ ground (arith, amount_from_requests_sub_cent es hs)
  | inr (m, set) ↦
      let below : m < 10_000 = subst IsSubCent set h in
      ground (arith, below, amount_from_requests_sub_cent es hs)
]

-- Requests that cost less than a cent each add nothing to an invoice that has a request of a cent or
-- more, however many they are; alone, they are charged by the rates.
pub invoice_amount-sub_cent :
    (e : BilledEvent) (es : List BilledEvent) (m : ℕ)
    → AllSubCent es
    → e.cost_micros ≡ some m
    → 10_000 ≤ m
    → (invoice_amount (e ∷ es) ≡ m / 10_000)
      × (invoice_amount es ≡ calculate_usage_cents (priced_lines es))
unfolding invoice_amount amount_from_requests
invoice_amount-sub_cent e es m small set large =
    ground (arith, amount_from_requests_sub_cent es small)

is_invoice_of_self :
    (customer : String) (start end amount : ℕ) (i : Invoice)
    → is_invoice_of customer start end (record i { amount_cents = amount })
      ≡ is_invoice_of customer start end i
is_invoice_of_self customer start end amount i = refl

upsert_invoice-upsert :
    (customer : String) (start end a b : ℕ) (table : List Invoice)
    → upsert_invoice customer start end b (upsert_invoice customer start end a table)
      ≡ upsert_invoice customer start end b table
unfolding upsert_invoice
upsert_invoice-upsert customer start end a b [] =
    ground (arith, beq_refl customer, beq_refl start, beq_refl end)
upsert_invoice-upsert customer start end a b (i ∷ is) =
    elim (Bool-cases (is_invoice_of customer start end i)) [
      | inl same ↦ rw (same, same)
      | inr other ↦ rw (other, other, upsert_invoice-upsert customer start end a b is)
    ]

-- Invoicing a period again replaces the amount of its one invoice, which keeps its status, and
-- touches no other: the table is as if the first run had not been made.
pub generate_invoice-again :
    (customer : String) (start end : ℕ) (before after : List BilledEvent) (table : List Invoice)
    → generate_invoice customer start end after (generate_invoice customer start end before table)
      ≡ generate_invoice customer start end after table
unfolding generate_invoice
generate_invoice-again customer start end before after table =
    upsert_invoice-upsert customer start end (invoice_amount before) (invoice_amount after) table
