-- ===== src/Checks/Composed.antt =====
-- packages/facturx/src/generate and extract/cii.ts, checks.ts: a draft is checked, computed and written;
-- its document is parsed and checked again.
use validateur_facturx.Common.{
  ◌≡◌, refl, ap₂, Bool, true, false, List, [], ◌∷◌, map, Option, some, Result, ok, get_or,
}
use validateur_facturx.Common.Text.{Text, codes, trim, trim_start, is_space}
use validateur_facturx.Profiles.{
  profile_can_express_prepaid_amount, basic, profile_urn, profile_from_urn, urn_to_profile,
}
use validateur_facturx.Invoice.Draft.{InvoiceDraft}
use validateur_facturx.Invoice.Compute.{
  ComputedLine, ComputedTaxGroup, ComputedInvoice, compute_invoice,
}
use validateur_facturx.Invoice.Balance.{compute_invoice_sound}
use validateur_facturx.DraftCheck.Dates.{is_iso_date}
use validateur_facturx.DraftCheck.Whole.{check_draft}
use validateur_facturx.DraftCheck.Ready.{check_draft-IsReady}
use validateur_facturx.Xml.{nodes, sanitise_text}
use validateur_facturx.Cii.{CiiInvoice, CiiLine, element_text, amount, money}
use validateur_facturx.Cii.Values.{XmlValue, child, path, get_field, text_of}
use validateur_facturx.Cii.Read.{
  read_root, read_parsed, parse_cii, parse_line, parse_tax_breakdown, is_falsy,
}
use validateur_facturx.Cii.Write.{line_node, tax_node}
use validateur_facturx.Cii.Document.{invoice_tree, serialise_cii, context_node}
use validateur_facturx.Cii.View.{
  view_node, view_document, read_text, attr_fields, local_name, add_field, unix_newlines,
}
use validateur_facturx.Cii.Nodes.{
  StatesLine, line-StatesLine, group-StatesGroup, totals-StatesTotals,
}
use validateur_facturx.Cii.Restated.{
  child-context, child-document, child-transaction, lines-read, child-settlement, groups-read,
  child-summation, child-number, child-issue_date,
}
use validateur_facturx.Cii.IssueDate.{parse_cii_date-date_node}
use validateur_facturx.Checks.{check_arithmetic}
use validateur_facturx.Checks.Generated.{States, StatesGroups, check_arithmetic-passes}

-- The lines of a document are those of the invoice, in order.
abbrev pub StatesLines : List ComputedLine → List CiiLine → Type 0
StatesLines [] [] = Unit
StatesLines (l ∷ ls) (r ∷ rs) = StatesLine l r × StatesLines ls rs
StatesLines [] (r ∷ rs) = ⊥
StatesLines (l ∷ ls) [] = ⊥

-- What a document repeats of the draft and of its computed amounts.
pub record IsRestated (draft : InvoiceDraft) (inv : ComputedInvoice) (doc : CiiInvoice)
    : Type 0 where
  pub states : States inv doc
  pub lines : StatesLines inv.lines doc.lines
  pub profile : doc.profile ≡ some basic
  pub invoice_number : doc.invoice_number ≡ element_text (some (read_text draft.invoice_number))
  pub issue_date : is_iso_date draft.issue_date ≡ true → doc.issue_date ≡ some draft.issue_date

written_lines :
    (ls : List ComputedLine) → StatesLines ls (map parse_line (map view_node (map line_node ls)))
written_lines [] = tt
written_lines (l ∷ ls) = (line-StatesLine l, written_lines ls)

written_amounts :
    (ls : List ComputedLine)
    → map (λ (l : CiiLine). l.net_amount) (map parse_line (map view_node (map line_node ls)))
      ≡ map (λ (l : ComputedLine). amount (some (money l.net_amount))) ls
written_amounts [] = refl
written_amounts (l ∷ ls) =
    ap₂ (λ a rest. a ∷ rest) (line-StatesLine l).net_amount (written_amounts ls)

written_groups :
    (gs : List ComputedTaxGroup)
    → StatesGroups gs (map parse_tax_breakdown (map view_node (map tax_node gs)))
written_groups [] = tt
written_groups (g ∷ gs) =
    let s = group-StatesGroup g in
    ((s.basis_amount, s.rate_percent, s.calculated_amount), written_groups gs)

module _ (draft : InvoiceDraft) (inv : ComputedInvoice) (legal_notes : Option Bool) where
  abbrev written_doc : CiiInvoice
  written_doc = read_root (some (view_node (invoice_tree draft inv legal_notes)))

  written-States : States inv written_doc
  unfolding read_root
  written-States =
      let s = totals-StatesTotals inv.totals (get_or (codes "EUR") draft.currency) in
      let t = child-transaction draft inv legal_notes in
      rw
        (
          t,
          lines-read draft inv legal_notes,
          child-settlement draft inv legal_notes,
          groups-read draft inv legal_notes,
          child-summation draft inv legal_notes,
        )
        record {
          lines = written_amounts inv.lines;
          groups = written_groups inv.tax_groups;
          line_total = s.line_total;
          tax_basis = s.tax_basis;
          tax_total = s.tax_total;
          grand_total = s.grand_total;
          due = s.due;
          prepaid = s.prepaid;
          allowance = s.allowance;
          charge = s.charge;
        }

  lines-written : StatesLines inv.lines written_doc.lines
  unfolding read_root
  lines-written =
      rw (child-transaction draft inv legal_notes, lines-read draft inv legal_notes)
        (written_lines inv.lines)

  number-written : written_doc.invoice_number ≡ element_text (some (read_text draft.invoice_number))
  unfolding read_root
  number-written =
      rw (child-document draft inv legal_notes, child-number draft inv legal_notes)
        (unfold view_node attr_fields text_of element_text in refl)

  issue_date-written :
      is_iso_date draft.issue_date ≡ true → written_doc.issue_date ≡ some draft.issue_date
  unfolding read_root
  issue_date-written h =
      rw (child-document draft inv legal_notes, child-issue_date draft inv legal_notes)
        (parse_cii_date-date_node (codes "ram:IssueDateTime") draft.issue_date h)

  profile-written : written_doc.profile ≡ some basic
  unfolding read_root path
  profile-written = rw (child-context draft inv legal_notes) (
      unfold view_node context_node attr_fields add_field nodes local_name child get_field text_of
        read_text sanitise_text unix_newlines trim trim_start is_space profile_urn profile_from_urn
        urn_to_profile in
      refl)

  written-IsRestated : IsRestated draft inv written_doc
  written-IsRestated = record {
    states = written-States;
    lines = lines-written;
    profile = profile-written;
    invoice_number = number-written;
    issue_date = issue_date-written;
  }

not_falsy :
    (value found : XmlValue) (name : Text)
    → child (some value) name ≡ some found
    → is_falsy (some value) ≡ false
unfolding child
not_falsy (XmlValue.str s) found name h = cc
not_falsy (XmlValue.obj fields) found name h = refl
not_falsy (XmlValue.arr values) found name h = refl

module _ (parse : Text → Result Text XmlValue) (legal_notes : Option Bool) where
  -- The document that is written for an invoice is read back as one, where the parser returns the tree
  -- that its text was rendered from and its declaration: the parsed document states the profile
  -- BASIC, the number of the draft (sanitised and trimmed), its date of issue, every line with its
  -- exact quantity and price, and the printed amounts of the computed invoice.
  pub parse_cii-IsRestated :
      (draft : InvoiceDraft) (inv : ComputedInvoice)
      → parse (serialise_cii draft inv legal_notes)
        ≡ ok (view_document (invoice_tree draft inv legal_notes))
      → (doc : CiiInvoice) × (parse_cii parse (serialise_cii draft inv legal_notes) ≡ ok doc)
        × IsRestated draft inv doc
  unfolding parse_cii read_parsed
  parse_cii-IsRestated draft inv reads =
      let value = view_node (invoice_tree draft inv legal_notes) in
      let root : child (some (view_document (invoice_tree draft inv legal_notes)))
            (codes "CrossIndustryInvoice")
          ≡ some value =
        unfold view_document child get_field invoice_tree local_name in refl in
      let some_root = not_falsy value _ _ (child-context draft inv legal_notes) in
      (
        read_root (some value),
        rw (reads, root, some_root) refl,
        written-IsRestated draft inv legal_notes,
      )

  -- A draft that the check of drafts accepts is computed; the document that is written for it is parsed, passes
  -- every arithmetic check of the validator, and states the draft's date of issue. The parser is
  -- relied on for reading the text of that document.
  pub accepted_draft_passes :
      (draft : InvoiceDraft)
      → (check_draft draft).is_ok ≡ true
      → ((inv : ComputedInvoice)
          → compute_invoice draft ≡ ok inv
          → parse (serialise_cii draft inv legal_notes)
            ≡ ok (view_document (invoice_tree draft inv legal_notes)))
      → (inv : ComputedInvoice) × (doc : CiiInvoice) × (compute_invoice draft ≡ ok inv)
        × (parse_cii parse (serialise_cii draft inv legal_notes) ≡ ok doc)
        × ((check_arithmetic doc).all_passed ≡ true)
        × (doc.issue_date ≡ some draft.issue_date)
  accepted_draft_passes draft accepted reads =
      let (inv, ready) = check_draft-IsReady draft accepted in
      let (doc, parsed, r) = parse_cii-IsRestated draft inv (reads inv ready.computed) in
      let (lines, groups, balanced) = compute_invoice_sound draft ready.computed in
      let carries : profile_can_express_prepaid_amount doc.profile ≡ true = rw r.profile refl in
      let (iso, _, _) = ready.issue_date in
      (
        inv,
        doc,
        ready.computed,
        parsed,
        check_arithmetic-passes inv doc balanced r.states carries,
        r.issue_date iso,
      )
