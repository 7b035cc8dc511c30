-- ===== src/DraftCheck/Lines.antt =====
-- packages/facturx/src/generate/check-draft.ts: `checkLines` and `checkVatCoherence`.
use validateur_facturx.Common.{
  ℕ, ◌+◌, Bool, true, false, not, List, [], ◌∷◌, ◌++◌, Option, none, some, ◌&&◌, ◌==◌, ltb, any,
  length, get_or, if◌then◌else◌,
}
use validateur_facturx.Common.Int.{ℤ, pos, negsuc}
use validateur_facturx.Common.Text.{Text, codes, text_eq, trim, includes, join}
use validateur_facturx.Money.{Decimal, compare, is_zero, zero_decimal}
use validateur_facturx.Money.Digits.{to_string}
use validateur_facturx.Money.Literal.{parse_decimal, format}
use validateur_facturx.Invoice.Draft.{
  DraftLine, InvoiceDraft, vat_categories, zero_rated_categories, reason_required_categories,
}
use validateur_facturx.DraftCheck.Issues.{DraftIssue, error, warning, issue, is_missing, around}
use mathlib.Core.List.{reverse}

abbrev pub french_vat_rates : List Text
french_vat_rates = codes "20" ∷ codes "10" ∷ codes "5.5" ∷ codes "2.1" ∷ codes "0" ∷ []

unfoldable pub rule_prefix : Text → Text
rule_prefix category = if text_eq category (codes "K") then codes "IC" else category

-- `replace(/0+$/, '')`, on the reversed text
abbrev pub drop_zeros : Text → Text
drop_zeros [] = []
drop_zeros (c ∷ s) = if c == b'0' then drop_zeros s else c ∷ s

-- `replace(/\.$/, '')`, on the reversed text
abbrev pub drop_point : Text → Text
drop_point [] = []
drop_point (c ∷ s) = if c == b'.' then s else c ∷ s

abbrev pub has_point : Text → Bool
has_point = any (λ c. c == b'.')

unfoldable pub strip_trailing_zeros : Decimal → Text
strip_trailing_zeros rate =
    if has_point (format rate)
    then reverse (drop_point (drop_zeros (reverse (format rate))))
    else format rate

abbrev pub is_positive : ℤ → Bool
is_positive (pos n) = ltb 0 n
is_positive (negsuc n) = false

-- `categories.includes(category)`, then the rest of a message about a category
abbrev about_category : Text → Text → Text → Text → Text
about_category human before category after = human ++ (before ++ (category ++ after))

unfoldable pub check_zero_rate : Text → Decimal → Text → Text → List DraftIssue
check_zero_rate category rate at human =
    if includes zero_rated_categories category && not (is_zero rate)
    then issue (at ++ codes ".vatRatePercent") error
        (about_category human (codes " : la catégorie « ") category
          (codes " » n'applique pas de TVA, le taux doit donc être 0."))
        (some (around (codes "BR-") (rule_prefix category) (codes "-05")))
    else []

unfoldable pub check_reason : Text → Option Text → Text → Text → List DraftIssue
check_reason category exemption_reason at human =
    if includes reason_required_categories category && is_missing exemption_reason
    then issue (at ++ codes ".exemptionReason") error
        (about_category human (codes " : la TVA n'est pas facturée (catégorie « ") category (
          codes
            " »), il faut donc indiquer pourquoi — par exemple « Autoliquidation » ou « Exonération article 262 ter I du CGI »."))
        (some (around (codes "BR-") (rule_prefix category) (codes "-10")))
    else []

unfoldable pub check_no_reason : Text → Option Text → Text → Text → List DraftIssue
check_no_reason category exemption_reason at human =
    if text_eq category (codes "Z") && not (is_missing exemption_reason)
    then issue (at ++ codes ".exemptionReason") warning
        (human
          ++ codes
              " : un motif d'exonération ne peut pas figurer sur une ligne au taux zéro (catégorie « Z ») — la norme l'interdit. Il ne sera pas repris sur la facture. Pour une opération réellement exonérée, utilisez la catégorie « E ».")
        (some (codes "BR-Z-10"))
    else []

unfoldable pub check_standard_rate : Text → Decimal → Text → Text → List DraftIssue
check_standard_rate category rate at human =
    if not (text_eq category (codes "S"))
    then []
    else if not (is_positive (compare rate zero_decimal))
    then issue (at ++ codes ".vatRatePercent") error
        (human
          ++ codes
              " : la catégorie « S » est le taux normal, le taux de TVA doit être supérieur à 0. Pour une facture sans TVA, utilisez une autre catégorie.")
        (some (codes "BR-S-05"))
    else if not (includes french_vat_rates (strip_trailing_zeros rate))
    then issue (at ++ codes ".vatRatePercent") warning
        (human
          ++ around (codes " : le taux de ") (strip_trailing_zeros rate)
              (codes " % ne correspond à aucun taux de TVA français (20, 10, 5,5 ou 2,1 %)."))
        none
    else []

unfoldable pub check_vat_coherence : Text → Decimal → Option Text → Text → Text → List DraftIssue
check_vat_coherence category rate exemption_reason at human =
    check_zero_rate category rate at human
    ++ (check_reason category exemption_reason at human
        ++ (check_no_reason category exemption_reason at human
            ++ check_standard_rate category rate at human))

unfoldable pub check_labels : DraftLine → Text → Text → List DraftIssue
check_labels line at human =
    (if is_missing (some line.name)
      then issue (at ++ codes ".name") error (human ++ codes " : la désignation est obligatoire.")
          (some (codes "BR-25"))
      else [])
    ++ ((if is_missing (some line.unit_code)
          then issue (at ++ codes ".unitCode") error
              (human
                ++ codes
                    " : l'unité de mesure est obligatoire (par exemple « C62 » pour une unité, « HUR » pour une heure).")
              (some (codes "BR-23"))
          else [])
        ++ (if not (is_missing line.description)
            then issue (at ++ codes ".description") warning
                (human
                  ++ codes
                      " : la description détaillée est imprimée sur le PDF mais n'est pas reprise dans le XML, le profil BASIC ne transportant pas ce champ (BT-154). Mettez l'information essentielle dans la désignation si le logiciel de votre client doit la lire.")
                (some (codes "BT-154"))
            else []))

abbrev not_a_number : Text → Text → Text → Text
not_a_number human before value = human ++ around before value (codes " » n'est pas un nombre.")

unfoldable pub check_quantity : Text → Text → Text → List DraftIssue
check_quantity quantity at human = elim (parse_decimal (some quantity)) [
  | none ↦
      issue (at ++ codes ".quantity") error
        (not_a_number human (codes " : la quantité « ") quantity) (some (codes "BR-22"))
  | some q ↦
      if is_zero q
      then issue (at ++ codes ".quantity") warning
          (human
            ++ codes " : la quantité est nulle, la ligne ne comptera pour rien dans les totaux.")
          none
      else []
]

unfoldable pub check_unit_price : Text → Text → Text → List DraftIssue
check_unit_price unit_price at human = elim (parse_decimal (some unit_price)) [
  | none ↦
      issue (at ++ codes ".unitPrice") error
        (not_a_number human (codes " : le prix unitaire « ") unit_price) (some (codes "BR-24"))
  | some p ↦ []
]

-- The category and the rate; either stops the checks of its line when it is refused.
unfoldable pub check_vat_fields : DraftLine → Text → Text → List DraftIssue
check_vat_fields line at human =
    if not (includes vat_categories line.vat_category)
    then issue (at ++ codes ".vatCategory") error
        (human
          ++ (codes " : catégorie de TVA « "
              ++ around line.vat_category (codes " » inconnue. Valeurs possibles : ")
                  (join (codes ", ") vat_categories ++ codes ".")))
        (some (codes "BR-CO-04"))
    else elim (parse_decimal (some line.vat_rate_percent)) [
      | none ↦
          issue (at ++ codes ".vatRatePercent") error
            (not_a_number human (codes " : le taux de TVA « ") line.vat_rate_percent) none
      | some rate ↦ check_vat_coherence line.vat_category rate line.exemption_reason at human
    ]

unfoldable pub check_line : DraftLine → ℕ → List DraftIssue
check_line line index =
    let at = codes "lines." ++ to_string index in
    let human = codes "Ligne " ++ to_string (index + 1) in
    check_labels line at human
    ++ (check_quantity line.quantity at human
        ++ (check_unit_price line.unit_price at human ++ check_vat_fields line at human))

-- `draft.lines.forEach`, from the given index on
unfoldable pub check_each_line : List DraftLine → ℕ → List DraftIssue
check_each_line [] index = []
check_each_line (line ∷ lines) index = check_line line index ++ check_each_line lines (index + 1)

-- An entry of `reasonsByGroup`: a key and the set of its reasons, in order of insertion.
pub record ReasonGroup : Type 0 where
  pub key : Text
  pub category : Text
  pub reasons : List Text

abbrev add_to_set : Text → List Text → List Text
add_to_set reason reasons = if includes reasons reason then reasons else reasons ++ reason ∷ []

unfoldable pub add_reason : Text → Text → Text → List ReasonGroup → List ReasonGroup
add_reason key category reason [] =
    record { key = key; category = category; reasons = reason ∷ [] } ∷ []
add_reason key category reason (g ∷ gs) =
    if text_eq g.key key
    then record g { reasons = add_to_set reason g.reasons } ∷ gs
    else g ∷ add_reason key category reason gs

-- Whether the loop reaches the reasons of a line: its category and its rate were accepted.
abbrev reaches_reasons : DraftLine → Bool
reaches_reasons line =
    includes vat_categories line.vat_category
    && (is_read (parse_decimal (some line.vat_rate_percent))
        && (includes reason_required_categories line.vat_category
            && not (is_missing line.exemption_reason)))
  where
    is_read : Option Decimal → Bool
    is_read none = false
    is_read (some d) = true

-- The key is the category and the rate as it was typed.
unfoldable pub collect_reasons : List ReasonGroup → List DraftLine → List ReasonGroup
unfolding add_reason
collect_reasons groups [] = groups
collect_reasons groups (line ∷ lines) =
    collect_reasons
      (if reaches_reasons line
        then add_reason (line.vat_category ++ b'|' ∷ line.vat_rate_percent) line.vat_category
            (trim (get_or [] line.exemption_reason)) groups
        else groups)
      lines

abbrev first_reason : List Text → Text
first_reason [] = []
first_reason (r ∷ rs) = r

unfoldable pub check_reason_groups : List ReasonGroup → List DraftIssue
check_reason_groups [] = []
check_reason_groups (g ∷ gs) =
    (if ltb 1 (length g.reasons)
      then issue (codes "lines") warning
          (codes
              "Plusieurs motifs d'exonération différents sont indiqués pour la catégorie de TVA « "
            ++ around g.category (codes " ». La ventilation de TVA n'en portera qu'un seul : « ")
                (first_reason g.reasons ++ codes " »."))
          (some (codes "BR-CO-18"))
      else [])
    ++ check_reason_groups gs

abbrev is_intra_community : DraftLine → Bool
is_intra_community line = text_eq line.vat_category (codes "K")

unfoldable pub check_delivery_country : InvoiceDraft → List DraftIssue
check_delivery_country draft =
    if any is_intra_community draft.lines && is_missing draft.delivery_country_code
    then issue (codes "deliveryCountryCode") error
        (codes
          "La facture comporte une livraison intracommunautaire (catégorie « K ») : le pays de livraison est obligatoire, c'est lui qui justifie l'exonération.")
        (some (codes "BR-IC-12"))
    else []

abbrev pub is_empty_list : List DraftLine → Bool
is_empty_list [] = true
is_empty_list (line ∷ lines) = false

unfoldable pub check_lines : InvoiceDraft → List DraftIssue
check_lines draft =
    if is_empty_list draft.lines
    then issue (codes "lines") error (codes "Une facture doit comporter au moins une ligne.")
        (some (codes "BR-16"))
    else check_each_line draft.lines 0
      ++ (check_delivery_country draft ++ check_reason_groups (collect_reasons [] draft.lines))
