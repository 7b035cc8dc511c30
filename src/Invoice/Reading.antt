-- ===== src/Invoice/Reading.antt =====
-- packages/facturx/src/generate/compute.ts: which drafts are refused, and what a computed line reads.
use validateur_facturx.Common.{
  ℕ, ◌+◌, ◌≡◌, refl, ap, ◌∙◌, arith, List, [], ◌∷◌, Option, none, some, Result, ok, All, ◌↔◌,
}
use validateur_facturx.Common.Failing.{◌>>=◌, >>=_returned}
use validateur_facturx.Common.Text.{Text}
use validateur_facturx.Money.{Decimal, rescale}
use validateur_facturx.Money.Literal.{parse_decimal}
use validateur_facturx.Invoice.Draft.{DraftLine, InvoiceDraft}
use validateur_facturx.Invoice.Compute.{
  ComputedLine, ComputedInvoice, line_of, compute_line, compute_lines, required, prepaid_of,
  compute_invoice,
}

pub required-parse :
    (raw field : Text) {d : Decimal} → required raw field ≡ ok d → parse_decimal (some raw) ≡ some d
unfolding required
required-parse raw field h = ground arith

pub ok_injective {ℓ κ} :
    {E : Type ℓ} {A : Type κ} {a b : A} → ◌≡◌ {A = Result E A} (ok a) (ok b) → a ≡ b
ok_injective h = cc

-- What a computed line is: its three numbers are the draft's, read exactly, and the net amount is
-- their product rounded to the cent.
pub record IsLine (line : DraftLine) (index : ℕ) (c : ComputedLine) : Type 0 where
  pub quantity_read : parse_decimal (some line.quantity) ≡ some c.quantity
  pub price_read : parse_decimal (some line.unit_price) ≡ some c.unit_price
  pub rate_read : parse_decimal (some line.vat_rate_percent) ≡ some c.vat_rate_percent
  pub shape : c ≡ line_of line index c.quantity c.unit_price c.vat_rate_percent

line_of-IsLine :
    (line : DraftLine) (index : ℕ) (q p r : Decimal) {c : ComputedLine}
    → parse_decimal (some line.quantity) ≡ some q
    → parse_decimal (some line.unit_price) ≡ some p
    → parse_decimal (some line.vat_rate_percent) ≡ some r
    → line_of line index q p r ≡ c
    → IsLine line index c
line_of-IsLine line index q p r a b d e =
    rw (← e) (record { quantity_read = a; price_read = b; rate_read = d; shape = refl })

compute_line-IsLine :
    (line : DraftLine) (index : ℕ) {c : ComputedLine}
    → compute_line line index ≡ ok c
    → IsLine line index c
unfolding compute_line
compute_line-IsLine line index h =
    let (q, a, h1) = >>=_returned (required line.quantity _) _ h in
    let (p, b, h2) = >>=_returned (required line.unit_price _) _ h1 in
    let (r, d, h3) = >>=_returned (required line.vat_rate_percent _) _ h2 in
    line_of-IsLine line index q p r (required-parse _ _ a) (required-parse _ _ b)
      (required-parse _ _ d) (ok_injective h3)

-- The computed lines stand for the draft's, one for one and in order, numbered from `index`.
abbrev pub Lines : List DraftLine → ℕ → List ComputedLine → Type 0
Lines [] index [] = Unit
Lines (line ∷ lines) index (c ∷ cs) = IsLine line index c × Lines lines (index + 1) cs
Lines [] index (c ∷ cs) = ⊥
Lines (line ∷ lines) index [] = ⊥

pub compute_lines-Lines :
    (lines : List DraftLine) (index : ℕ) {cs : List ComputedLine}
    → compute_lines lines index ≡ ok cs
    → Lines lines index cs
unfolding compute_lines
compute_lines-Lines [] index {cs} h = rw (← ok_injective h) tt
compute_lines-Lines (line ∷ lines) index {cs} h =
    let (c, a, h1) = >>=_returned (compute_line line index) _ h in
    let (rest, b, h2) = >>=_returned (compute_lines lines (index + 1)) _ h1 in
    rw (← ok_injective h2)
      (compute_line-IsLine line index a, compute_lines-Lines lines (index + 1) b)

-- The text is a number that `parseDecimal` reads.
abbrev pub Reads : Text → Type 0
Reads t = (d : Decimal) × (parse_decimal (some t) ≡ some d)

abbrev pub ReadsLine : DraftLine → Type 0
ReadsLine line = Reads line.quantity × Reads line.unit_price × Reads line.vat_rate_percent

-- An absent or empty deposit is not read.
abbrev pub ReadsPrepaid : Option Text → Type 0
ReadsPrepaid none = Unit
ReadsPrepaid (some []) = Unit
ReadsPrepaid (some (c ∷ s)) = Reads (c ∷ s)

required_reads :
    (raw field : Text) {d : Decimal} → parse_decimal (some raw) ≡ some d → required raw field ≡ ok d
unfolding required
required_reads raw field h = ground arith

compute_line_reads :
    (line : DraftLine) (index : ℕ)
    → ReadsLine line
    → (c : ComputedLine) × (compute_line line index ≡ ok c)
unfolding compute_line
compute_line_reads line index ((q, a), (p, b), (r, d)) = (
  line_of line index q p r,
  rw
      (
        required_reads line.quantity _ a,
        required_reads line.unit_price _ b,
        required_reads line.vat_rate_percent _ d,
      )
      refl,
)

compute_lines_reads :
    (lines : List DraftLine) (index : ℕ)
    → All ReadsLine lines
    → (cs : List ComputedLine) × (compute_lines lines index ≡ ok cs)
unfolding compute_lines
compute_lines_reads [] index h = ([], refl)
compute_lines_reads (line ∷ lines) index (p, h) =
    let (c, a) = compute_line_reads line index p in
    let (cs, b) = compute_lines_reads lines (index + 1) h in (c ∷ cs, rw (a, b) refl)

-- One step of a chain whose first part succeeds.
>>=-ok {ℓ κ} :
    {A : Type ℓ} {B : Type κ} (m : Result Text A) (f : A → Result Text B) {a : A}
    → m ≡ ok a
    → (m >>= f) ≡ f a
>>=-ok m f e = ap (λ r. r >>= f) e

prepaid_reads : (p : Option Text) → ReadsPrepaid p → (d : Decimal) × (prepaid_of p ≡ ok d)
unfolding prepaid_of
prepaid_reads none h = (_, refl)
prepaid_reads (some []) h = (_, refl)
prepaid_reads (some (c ∷ s)) (d, h) = (rescale d 2, >>=-ok _ _ (required_reads (c ∷ s) _ h))

prepaid_read_back : (p : Option Text) {d : Decimal} → prepaid_of p ≡ ok d → ReadsPrepaid p
unfolding prepaid_of
prepaid_read_back none h = tt
prepaid_read_back (some []) h = tt
prepaid_read_back (some (c ∷ s)) h =
    let (v, a, _) = >>=_returned (required (c ∷ s) _) _ h in (v, required-parse (c ∷ s) _ a)

Lines-Reads :
    (lines : List DraftLine) (index : ℕ) (cs : List ComputedLine)
    → Lines lines index cs
    → All ReadsLine lines
Lines-Reads [] index cs h = tt
Lines-Reads (line ∷ lines) index [] h = elim h [ ]
Lines-Reads (line ∷ lines) index (c ∷ cs) (h, hs) = (
  ((c.quantity, h.quantity_read), (c.unit_price, h.price_read), (c.vat_rate_percent, h.rate_read)),
  Lines-Reads lines (index + 1) cs hs,
)

-- The computation fails on unreadable numbers only: it succeeds exactly when every line's quantity,
-- price and rate can be read, and the deposit too where one is stated.
pub compute_invoice_iff :
    (draft : InvoiceDraft)
    → ((inv : ComputedInvoice) × (compute_invoice draft ≡ ok inv))
      ↔ (All ReadsLine draft.lines × ReadsPrepaid draft.prepaid_amount)
unfolding compute_invoice
compute_invoice_iff draft = (
  λ (inv, h).
      let (lines, a, h1) = >>=_returned (compute_lines draft.lines 0) _ h in
      let (prepaid, b, h2) = >>=_returned (prepaid_of draft.prepaid_amount) _ h1 in
      (
        Lines-Reads draft.lines 0 lines (compute_lines-Lines draft.lines 0 a),
        prepaid_read_back draft.prepaid_amount b,
      ),
  λ (l, p).
      let (cs, a) = compute_lines_reads draft.lines 0 l in
      let (d, b) = prepaid_reads draft.prepaid_amount p in (_, >>=-ok _ _ a ∙ >>=-ok _ _ b),
)
