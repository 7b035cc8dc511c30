-- ===== src/Cii/Tests.antt =====
-- packages/facturx/src/extract/cii.ts at concrete inputs.
use validateur_facturx.Common.{ℕ, ◌≡◌, ◌↔◌, refl, true, arith, List, ◌++◌}
use validateur_facturx.Common.Text.{codes}
use validateur_facturx.Cii.Detect.{
  cii_root_marker, looks_like_cii_xml, contains_bytes, search_bytes, matches_here,
  contains_bytes_iff,
}

abbrev a_file : List ℕ
a_file = codes "<?xml?><rsm:CrossIndustryInvoice/>"

found : looks_like_cii_xml a_file ≡ true
unfolding looks_like_cii_xml contains_bytes search_bytes matches_here
found = refl

contains_bytes_iff_example :
    (contains_bytes a_file cii_root_marker ≡ true)
    ↔ ((before : List ℕ) × (after : List ℕ) × (a_file ≡ before ++ (cii_root_marker ++ after)))
contains_bytes_iff_example = contains_bytes_iff a_file cii_root_marker (omega arith)
