-- ===== src/Invoice/Draft.antt =====
-- packages/facturx/src/generate/draft.ts: the submitted invoice. Optional fields are `Option`, and
-- codes are texts, since a request may carry any text.
use validateur_facturx.Common.{List, [], ◌∷◌, Option}
use validateur_facturx.Common.Text.{Text, codes}

abbrev pub vat_categories : List Text
vat_categories = codes "S" ∷ codes "Z" ∷ codes "E" ∷ codes "AE" ∷ codes "K" ∷ codes "G" ∷ []

abbrev pub zero_rated_categories : List Text
zero_rated_categories = codes "Z" ∷ codes "E" ∷ codes "AE" ∷ codes "K" ∷ codes "G" ∷ []

abbrev pub reason_required_categories : List Text
reason_required_categories = codes "E" ∷ codes "AE" ∷ codes "K" ∷ codes "G" ∷ []

abbrev pub draft_type_codes : List Text
draft_type_codes = codes "380" ∷ codes "381" ∷ codes "384" ∷ codes "386" ∷ []

pub record DraftAddress : Type 0 where
  pub line1 : Text
  pub line2 : Option Text
  pub postcode : Text
  pub city : Text
  pub country_code : Text

pub record DraftParty : Type 0 where
  pub name : Text
  pub siret : Option Text
  pub siren : Option Text
  pub vat_id : Option Text
  pub address : DraftAddress

pub record DraftLine : Type 0 where
  pub name : Text
  pub description : Option Text
  pub quantity : Text
  pub unit_code : Text
  pub unit_price : Text
  pub vat_category : Text
  pub vat_rate_percent : Text
  pub exemption_reason : Option Text

pub record InvoiceDraft : Type 0 where
  pub invoice_number : Text
  pub type_code : Option Text
  pub issue_date : Text
  pub due_date : Option Text
  pub delivery_date : Option Text
  pub delivery_country_code : Option Text
  pub currency : Option Text
  pub buyer_reference : Option Text
  pub purchase_order_reference : Option Text
  pub seller : DraftParty
  pub buyer : DraftParty
  pub lines : List DraftLine
  pub payment_means_code : Option Text
  pub iban : Option Text
  pub payment_terms : Option Text
  pub prepaid_amount : Option Text
  pub notes : List Text
