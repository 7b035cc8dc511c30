-- ===== src/Pdp/Lifecycle.antt =====
-- apps/api/src/pdp/lifecycle.ts: the lifecycle vocabulary, and the state that a status implies.
use validateur_facturx.Common.{
  ℕ, Bool, true, false, List, [], ◌∷◌, Option, none, some, leb, if◌then◌else◌, find, any,
}
use validateur_facturx.Common.Text.{Text, codes, text_eq}

pub data InvoiceState : Type 0 where
  draft validated queued transmitted delivered rejected archived : InvoiceState

pub record LifecycleDefinition : Type 0 where
  pub code : Text
  pub label : Text
  pub mandatory : Bool
  pub state : Option InvoiceState

abbrev definition : Text → Text → Bool → Option InvoiceState → LifecycleDefinition
definition code label mandatory state = record {
  code = code;
  label = label;
  mandatory = mandatory;
  state = state;
}

unfoldable pub lifecycle_definitions : List LifecycleDefinition
lifecycle_definitions =
    definition (codes "DEPOSEE") (codes "Déposée sur la plateforme") true (some transmitted)
    ∷ definition (codes "REJETEE") (codes "Rejetée par la plateforme") true (some rejected)
    ∷ definition (codes "PRISE_EN_CHARGE") (codes "Prise en charge par la plateforme") false
        (some transmitted)
    ∷ definition (codes "MISE_A_DISPOSITION") (codes "Mise à disposition du destinataire") true
        (some delivered)
    ∷ definition (codes "RECUE_PAR_LA_PLATEFORME_DESTINATAIRE")
        (codes "Reçue par la plateforme du destinataire") false (some delivered)
    ∷ definition (codes "APPROUVEE") (codes "Approuvée par le destinataire") false (some delivered)
    ∷ definition (codes "APPROUVEE_PARTIELLEMENT")
        (codes "Approuvée partiellement par le destinataire") false (some delivered)
    ∷ definition (codes "REFUSEE") (codes "Refusée par le destinataire") true (some rejected)
    ∷ definition (codes "PAIEMENT_TRANSMIS") (codes "Paiement transmis") false none
    ∷ definition (codes "ENCAISSEE") (codes "Encaissée") true none
    ∷ definition (codes "COMPLETEE") (codes "Complétée") false none
    ∷ definition (codes "SUSPENDUE") (codes "Suspendue") false none
    ∷ []

-- `INTERNAL_LIFECYCLE_LABELS[code]`
unfoldable pub internal_lifecycle_labels : Text → Option Text
internal_lifecycle_labels code =
    if text_eq code (codes "RECEIVED")
    then some (codes "Facture reçue et déposée")
    else if text_eq code (codes "TRANSMISSION_ECHOUEE")
    then some (codes "Échec de transmission")
    else if text_eq code (codes "TRANSMISSION_ABANDONNEE")
    then some (codes "Transmission abandonnée")
    else none

abbrev pub has_code : Text → LifecycleDefinition → Bool
has_code code d = text_eq d.code code

unfoldable pub is_lifecycle_code : Text → Bool
unfolding lifecycle_definitions
is_lifecycle_code code = any (has_code code) lifecycle_definitions

-- `LIFECYCLE_DEFINITIONS[code]`
unfoldable pub definition_of : Text → Option LifecycleDefinition
definition_of code = find (has_code code) lifecycle_definitions

unfoldable pub lifecycle_label : Text → Option Text
unfolding definition_of internal_lifecycle_labels
lifecycle_label code = elim (definition_of code) [
  | some d ↦ some d.label
  | none ↦ internal_lifecycle_labels code
]

unfoldable pub state_rank : InvoiceState → ℕ
state_rank draft = 0
state_rank validated = 1
state_rank queued = 2
state_rank transmitted = 3
state_rank delivered = 4
state_rank rejected = 5
state_rank archived = 6

-- `LIFECYCLE_DEFINITIONS[code].state`, for a code that is known
unfoldable pub implied_state : Text → Option InvoiceState
implied_state code = elim (definition_of code) [ some d ↦ d.state | none ↦ none ]

-- The last two tests, for a code that implies a state.
unfoldable pub advance_to : InvoiceState → InvoiceState → Option InvoiceState
unfolding state_rank
advance_to archived next = none
advance_to current next = if leb (state_rank next) (state_rank current) then none else some next

unfoldable pub advance_state : InvoiceState → Text → Option InvoiceState
unfolding advance_to
advance_state current code =
    if is_lifecycle_code code
    then elim (implied_state code) [ none ↦ none | some next ↦ advance_to current next ]
    else none

-- The write that follows a status: `const next = advanceState(…); if (next) …update(…)`.
unfoldable pub apply_code : InvoiceState → Text → InvoiceState
apply_code current code = elim (advance_state current code) [ none ↦ current | some next ↦ next ]
