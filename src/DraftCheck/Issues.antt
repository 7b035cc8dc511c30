-- ===== src/DraftCheck/Issues.antt =====
-- packages/facturx/src/generate/check-draft.ts: the problems that a check reports, in order.
use validateur_facturx.Common.{Bool, true, false, List, [], ◌∷◌, ◌++◌, Option, none, some, any}
use validateur_facturx.Common.Text.{Text, text_eq, trim}

pub data DraftIssueSeverity : Type 0 where
  error warning : DraftIssueSeverity

pub record DraftIssue : Type 0 where
  pub field : Text
  pub severity : DraftIssueSeverity
  pub message : Text
  pub rule_id : Option Text

abbrev pub issue : Text → DraftIssueSeverity → Text → Option Text → List DraftIssue
issue field severity message rule_id =
    record { field = field; severity = severity; message = message; rule_id = rule_id } ∷ []

abbrev pub is_error : DraftIssue → Bool
is_error i = is_error_severity i.severity
  where
    is_error_severity : DraftIssueSeverity → Bool
    is_error_severity error = true
    is_error_severity warning = false

unfoldable pub has_errors : List DraftIssue → Bool
has_errors = any is_error

-- `!text?.trim()`
abbrev pub is_missing : Option Text → Bool
is_missing none = true
is_missing (some s) = text_eq (trim s) []

-- A text between two others.
abbrev pub around : Text → Text → Text → Text
around before middle after = before ++ (middle ++ after)
