-- ===== src/Auth/Reset.antt =====
-- packages/auth/src/password-reset.ts: asking for a link, and setting a password with one.
pub mod Ends
use validateur_facturx.Common.{
  ℕ, Bool, true, false, List, [], ◌∷◌, map, Option, none, some, Result, ok, err, find,
  if◌then◌else◌,
}
use validateur_facturx.Common.Text.{Text, codes, text_eq, trim, to_lower}
use validateur_facturx.Auth.Session.{User, Session, is_some, has_user_id, revoke_all_sessions}
use validateur_facturx.Auth.Credential.{
  CredentialToken, CredentialTokenPurpose, CredentialTokenFailure, CredentialTokenHolder, unknown,
  expired, used, superseded, disabled, password_reset, issue_credential_token, check_hash,
  consume_credential_token,
}
use validateur_facturx.Auth.Password.{password_problem}

-- The tables that a reset reads and writes.
pub record AuthDb : Type 0 where
  pub users : List User
  pub tokens : List CredentialToken
  pub sessions : List Session

-- `normaliseEmail` of accounts.ts
unfoldable pub normalise_email : Text → Text
normalise_email email = map to_lower (trim email)

abbrev pub has_email : Text → User → Bool
has_email email u = text_eq u.email email

-- The address that a link is sent to, and the rows after; nothing for an unknown or disabled
-- account. There is no transaction around the two statements of issuing.
unfoldable pub request_password_reset :
    AuthDb
    → (List CredentialToken → List CredentialToken)
    → Text
    → Text
    → Text
    → ℕ
    → Option Text × AuthDb
request_password_reset db between email_input id hash now =
    elim (find (has_email (normalise_email email_input)) db.users) [
      | none ↦ (none, db)
      | some user ↦ if is_some user.disabled_at then (none, db) else (
        some user.email,
        record db {
          tokens = issue_credential_token db.tokens between id user.id password_reset hash none now;
        },
      )
    ]

pub data SetPasswordFailure : Type 0 where
  link_refused : CredentialTokenFailure → SetPasswordFailure
  weak : SetPasswordFailure

abbrev pub failure_message : CredentialTokenFailure → Text
failure_message unknown =
    codes
      "Ce lien n'est pas valide. Il a peut-être été mal recopié, ou il a expiré depuis longtemps. Demandez-en un nouveau."
failure_message expired =
    codes "Ce lien a expiré. Demandez-en un nouveau depuis la page de connexion."
failure_message used =
    codes
      "Ce lien a déjà été utilisé. Si ce n’était pas vous, demandez immédiatement un nouveau lien."
failure_message superseded =
    codes
      "Ce lien a été remplacé par un plus récent. Utilisez le dernier e-mail reçu, ou demandez-en un nouveau."
failure_message disabled =
    codes
      "Ce compte est désactivé. Contactez le responsable du compte : réinitialiser le mot de passe ne le réactivera pas."

pub data SetPasswordOutcome : Type 0 where
  password_set : (user_id email : Text) → Option Text → SetPasswordOutcome
  refused : SetPasswordFailure → Text → SetPasswordOutcome

unfoldable pub set_password_hash : List User → Text → Text → List User
set_password_hash [] user_id digest = []
set_password_hash (u ∷ us) user_id digest =
    (if has_user_id user_id u then record u { password_hash = some digest } else u)
    ∷ set_password_hash us user_id digest

-- After the password: the link is consumed first, then the hash is written and the sessions end.
unfoldable pub complete_reset :
    AuthDb → CredentialTokenHolder → Text → ℕ → SetPasswordOutcome × AuthDb
complete_reset db holder digest now =
    let (consumed, rows) = consume_credential_token db.tokens holder.token_id now in
    if consumed
    then (
      password_set holder.user_id holder.email holder.name,
      record db {
        users = set_password_hash db.users holder.user_id digest;
        tokens = rows;
        sessions = revoke_all_sessions db.sessions holder.user_id now;
      },
    )
    else (refused (link_refused used) (failure_message used), record db { tokens = rows })

-- `read` is the database when the link was checked, and `db` when it is consumed; `hash` is that of the
-- token, and `digest` the new hash of the password.
unfoldable pub set_password_with_token :
    AuthDb → AuthDb → Text → Text → Text → CredentialTokenPurpose → ℕ → SetPasswordOutcome × AuthDb
set_password_with_token read db hash password digest purpose now =
    elim (check_hash read.users read.tokens hash purpose now) [
      | err reason ↦ (refused (link_refused reason) (failure_message reason), db)
      | ok holder ↦ elim (password_problem password) [
        | some problem ↦ (refused weak problem, db)
        | none ↦ complete_reset db holder digest now
      ]
    ]
