-- ===== src/Invoice/Tests.antt =====
-- The theorems on packages/facturx/src/generate/compute.ts at one draft.
use validateur_facturx.Common.{◌≡◌, ◌↔◌, [], map, All, ok}
use validateur_facturx.Invoice.Compute.{ComputedInvoice, compute_invoice, group_lines, tax_group}
use validateur_facturx.Invoice.Reading.{Lines, ReadsLine, ReadsPrepaid, compute_invoice_iff}
use validateur_facturx.Invoice.Grouping.{IsGrouping, group_lines-IsGrouping}
use validateur_facturx.Invoice.Balance.{IsBalanced, compute_invoice_sound}
use validateur_facturx.Invoice.Samples.{draft, computed, compute_draft}

compute_invoice_sound_example :
    Lines draft.lines 0 computed.lines
    × (computed.tax_groups ≡ map tax_group (group_lines [] computed.lines))
    × IsBalanced computed
compute_invoice_sound_example = compute_invoice_sound draft compute_draft

group_lines-IsGrouping_example : IsGrouping computed.lines (group_lines [] computed.lines)
group_lines-IsGrouping_example = group_lines-IsGrouping computed.lines

compute_invoice_iff_example :
    ((inv : ComputedInvoice) × (compute_invoice draft ≡ ok inv))
    ↔ (All ReadsLine draft.lines × ReadsPrepaid draft.prepaid_amount)
compute_invoice_iff_example = compute_invoice_iff draft
