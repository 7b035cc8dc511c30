-- ===== src/Auth/Credential.antt =====
-- packages/auth/src/credential-tokens.ts: the links that set a password, by the hash of their token.
-- SHA-256, the random token and the identifier of a new row are parameters.
use validateur_facturx.Common.{
  ℕ, ◌+◌, ◌*◌, Bool, true, false, not, List, [], ◌∷◌, ◌++◌, Option, none, some, ◌&&◌, ltb, leb,
  find, keep, length, Result, ok, err, if◌then◌else◌,
}
use validateur_facturx.Common.Text.{Text, text_eq}
use validateur_facturx.Auth.Session.{User, is_some, has_user_id}

pub data CredentialTokenPurpose : Type 0 where
  password_reset invitation : CredentialTokenPurpose

abbrev pub password_reset_ttl_ms : ℕ
password_reset_ttl_ms = 2 * 60 * 60 * 1000

abbrev pub invitation_ttl_ms : ℕ
invitation_ttl_ms = 7 * 24 * 60 * 60 * 1000

abbrev pub ttl_for : CredentialTokenPurpose → ℕ
ttl_for invitation = invitation_ttl_ms
ttl_for password_reset = password_reset_ttl_ms

abbrev pub same_purpose : CredentialTokenPurpose → CredentialTokenPurpose → Bool
same_purpose invitation invitation = true
same_purpose password_reset password_reset = true
same_purpose _ _ = false

pub record CredentialToken : Type 0 where
  pub id : Text
  pub user_id : Text
  pub purpose : CredentialTokenPurpose
  pub token_hash : Text
  pub expires_at : ℕ
  pub created_at : ℕ
  pub created_by_user_id : Option Text
  pub used_at : Option ℕ
  pub invalidated_at : Option ℕ

-- Neither used nor superseded.
abbrev pub is_open : CredentialToken → Bool
is_open t = not (is_some t.used_at) && not (is_some t.invalidated_at)

abbrev pub belongs : Text → CredentialTokenPurpose → CredentialToken → Bool
belongs user_id purpose t = text_eq t.user_id user_id && same_purpose t.purpose purpose

-- `updateMany` on the open links of the user and the purpose
unfoldable pub invalidate_earlier :
    Text → CredentialTokenPurpose → ℕ → List CredentialToken → List CredentialToken
invalidate_earlier user_id purpose now [] = []
invalidate_earlier user_id purpose now (t ∷ ts) =
    (if belongs user_id purpose t && is_open t then record t { invalidated_at = some now } else t)
    ∷ invalidate_earlier user_id purpose now ts

abbrev pub new_token :
    Text → Text → CredentialTokenPurpose → Text → Option Text → ℕ → CredentialToken
new_token id user_id purpose hash created_by now = record {
  id = id;
  user_id = user_id;
  purpose = purpose;
  token_hash = hash;
  expires_at = now + ttl_for purpose;
  created_at = now;
  created_by_user_id = created_by;
  used_at = none;
  invalidated_at = none;
}

unfoldable pub create_credential_token :
    List CredentialToken
    → Text
    → Text
    → CredentialTokenPurpose
    → Text
    → Option Text
    → ℕ
    → List CredentialToken
create_credential_token tokens id user_id purpose hash created_by now =
    tokens ++ new_token id user_id purpose hash created_by now ∷ []

-- The two statements; `between` is what other requests do to the rows between them, where the caller has
-- no transaction.
unfoldable pub issue_credential_token :
    List CredentialToken
    → (List CredentialToken → List CredentialToken)
    → Text
    → Text
    → CredentialTokenPurpose
    → Text
    → Option Text
    → ℕ
    → List CredentialToken
unfolding invalidate_earlier create_credential_token
issue_credential_token tokens between id user_id purpose hash created_by now =
    create_credential_token (between (invalidate_earlier user_id purpose now tokens)) id user_id
      purpose hash created_by now

pub data CredentialTokenFailure : Type 0 where
  unknown expired used superseded disabled : CredentialTokenFailure

pub record CredentialTokenHolder : Type 0 where
  pub user_id : Text
  pub email : Text
  pub name : Option Text
  pub tenant_id : Text
  pub token_id : Text
  pub purpose : CredentialTokenPurpose

abbrev pub has_token_hash : Text → CredentialToken → Bool
has_token_hash hash t = text_eq t.token_hash hash

-- The checks, once the row and its user are read.
unfoldable pub check_found :
    CredentialToken
    → User
    → CredentialTokenPurpose
    → ℕ
    → Result CredentialTokenFailure CredentialTokenHolder
check_found row user purpose now =
    if not (same_purpose row.purpose purpose)
    then err unknown
    else if is_some row.used_at
    then err used
    else if is_some row.invalidated_at
    then err superseded
    else if leb row.expires_at now
    then err expired
    else if is_some user.disabled_at
    then err disabled
    else ok (record {
      user_id = user.id;
      email = user.email;
      name = user.name;
      tenant_id = user.tenant_id;
      token_id = row.id;
      purpose = row.purpose;
    })

unfoldable pub check_hash :
    List User
    → List CredentialToken
    → Text
    → CredentialTokenPurpose
    → ℕ
    → Result CredentialTokenFailure CredentialTokenHolder
unfolding check_found
check_hash users tokens hash purpose now = elim (find (has_token_hash hash) tokens) [
  | none ↦ err unknown
  | some row ↦ elim (find (has_user_id row.user_id) users) [
    | none ↦ err unknown
    | some user ↦ check_found row user purpose now
  ]
]

-- The `where` of `consumeCredentialToken`.
abbrev pub is_consumable : Text → ℕ → CredentialToken → Bool
is_consumable id now t = text_eq t.id id && (is_open t && ltb now t.expires_at)

unfoldable pub mark_used : Text → ℕ → List CredentialToken → List CredentialToken
mark_used id now [] = []
mark_used id now (t ∷ ts) =
    (if is_consumable id now t then record t { used_at = some now } else t) ∷ mark_used id now ts

-- Whether exactly one row was updated, and the rows after.
unfoldable pub consume_credential_token :
    List CredentialToken → Text → ℕ → Bool × List CredentialToken
unfolding mark_used
consume_credential_token tokens id now =
    (is_one (length (keep (is_consumable id now) tokens)), mark_used id now tokens)
  where
    is_one : ℕ → Bool
    is_one n = leb 1 n && leb n 1

abbrev pub is_recent : ℕ → CredentialToken → Bool
is_recent older_than t = not (ltb t.expires_at older_than)

unfoldable pub purge_expired_credential_tokens : List CredentialToken → ℕ → List CredentialToken
purge_expired_credential_tokens tokens older_than = keep (is_recent older_than) tokens
