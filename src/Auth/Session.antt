-- ===== src/Auth/Session.antt =====
-- packages/auth/src/session.ts: sessions, by the hash of their token. A date is its number of
-- milliseconds; SHA-256 is a parameter, and so are the random token and the identifier of a new row.
use validateur_facturx.Common.{
  ℕ, ◌+◌, ◌*◌, Bool, true, false, not, List, [], ◌∷◌, ◌++◌, Option, none, some, ◌&&◌, ltb, leb,
  find, any, take, if◌then◌else◌,
}
use validateur_facturx.Common.Text.{Text, text_eq}
use validateur_facturx.Auth.Permissions.{UserRole, is_scoped_role}

abbrev pub session_max_age_ms : ℕ
session_max_age_ms = 7 * 24 * 60 * 60 * 1000

abbrev pub session_absolute_max_age_ms : ℕ
session_absolute_max_age_ms = 30 * 24 * 60 * 60 * 1000

abbrev pub session_touch_interval_ms : ℕ
session_touch_interval_ms = 60 * 60 * 1000

pub record User : Type 0 where
  pub id : Text
  pub tenant_id : Text
  pub email : Text
  pub name : Option Text
  pub role : UserRole
  pub password_hash : Option Text
  pub disabled_at : Option ℕ
  pub scoped_client_orgs : List Text

pub record Session : Type 0 where
  pub id : Text
  pub user_id : Text
  pub token_hash : Text
  pub expires_at : ℕ
  pub last_seen_at : ℕ
  pub created_at : ℕ
  pub revoked_at : Option ℕ
  pub ip_address : Option Text
  pub user_agent : Option Text

pub record AuthenticatedUser : Type 0 where
  pub user_id : Text
  pub tenant_id : Text
  pub email : Text
  pub name : Option Text
  pub role : UserRole
  pub session_id : Text
  pub client_org_ids : Option (List Text)

pub record SessionOrigin : Type 0 where
  pub ip_address : Option Text
  pub user_agent : Option Text

abbrev pub is_some {ℓ} : {A : Type ℓ} → Option A → Bool
is_some none = false
is_some (some a) = true

abbrev truncated : Option Text → Option Text
truncated none = none
truncated (some s) = some (take 400 s)

abbrev pub has_hash : Text → Session → Bool
has_hash hash s = text_eq s.token_hash hash

abbrev pub new_session : Text → Text → Text → SessionOrigin → ℕ → Session
new_session id user_id hash origin now = record {
  id = id;
  user_id = user_id;
  token_hash = hash;
  expires_at = now + session_max_age_ms;
  last_seen_at = now;
  created_at = now;
  revoked_at = none;
  ip_address = origin.ip_address;
  user_agent = truncated origin.user_agent;
}

-- The row that `createSession` writes, from the hash of its token; a hash that exists violates the
-- unique constraint, and nothing is written.
unfoldable pub create_session : List Session → Text → Text → Text → SessionOrigin → ℕ → List Session
create_session sessions id user_id hash origin now =
    if any (has_hash hash) sessions
    then sessions
    else sessions ++ new_session id user_id hash origin now ∷ []

-- The refusals of `resolveSession`, in order.
unfoldable pub is_live : Session → User → ℕ → Bool
is_live session user now =
    not (is_some session.revoked_at)
    && (not (leb session.expires_at now)
        && (not (leb (session.created_at + session_absolute_max_age_ms) now)
            && not (is_some user.disabled_at)))

-- `now - lastSeenAt > interval`
abbrev pub needs_touch : Session → ℕ → Bool
needs_touch session now = ltb (session.last_seen_at + session_touch_interval_ms) now

-- The slid expiry never passes the absolute end.
unfoldable pub touch : ℕ → Session → Session
touch now session =
    let slid_to = now + session_max_age_ms in
    let absolute_end = session.created_at + session_absolute_max_age_ms in
    record session {
      last_seen_at = now;
      expires_at = if ltb slid_to absolute_end then slid_to else absolute_end;
    }

abbrev pub update_session : Text → (Session → Session) → List Session → List Session
update_session id f [] = []
update_session id f (s ∷ ss) = if text_eq s.id id then f s ∷ ss else s ∷ update_session id f ss

abbrev pub has_user_id : Text → User → Bool
has_user_id id u = text_eq u.id id

unfoldable pub acting_user : Session → User → AuthenticatedUser
acting_user session user = record {
  user_id = user.id;
  tenant_id = user.tenant_id;
  email = user.email;
  name = user.name;
  role = user.role;
  session_id = session.id;
  client_org_ids = if is_scoped_role user.role then some user.scoped_client_orgs else none;
}

-- `resolveSession`, once the row and its user are read.
unfoldable pub resolve_found :
    List Session → Session → User → ℕ → Option AuthenticatedUser × List Session
resolve_found sessions session user now =
    if not (is_live session user now) then (none, sessions) else (
      some (acting_user session user),
      if needs_touch session now then update_session session.id (touch now) sessions else sessions,
    )

-- A session's user exists: the row would have been deleted with it.
unfoldable pub resolve_hash :
    List User → List Session → Text → ℕ → Option AuthenticatedUser × List Session
unfolding resolve_found
resolve_hash users sessions hash now = elim (find (has_hash hash) sessions) [
  | none ↦ (none, sessions)
  | some session ↦ elim (find (has_user_id session.user_id) users) [
    | none ↦ (none, sessions)
    | some user ↦ resolve_found sessions session user now
  ]
]

abbrev pub revoke_live : ℕ → Session → Session
revoke_live now s = if is_some s.revoked_at then s else record s { revoked_at = some now }

-- `updateMany` on the live sessions with the hash
unfoldable pub revoke_hash : List Session → Text → ℕ → List Session
revoke_hash [] hash now = []
revoke_hash (s ∷ ss) hash now =
    (if has_hash hash s then revoke_live now s else s) ∷ revoke_hash ss hash now

unfoldable pub revoke_all_sessions : List Session → Text → ℕ → List Session
revoke_all_sessions [] user_id now = []
revoke_all_sessions (s ∷ ss) user_id now =
    (if text_eq s.user_id user_id then revoke_live now s else s)
    ∷ revoke_all_sessions ss user_id now

module _ (sha256 : Text → Text) where
  unfoldable pub resolve_session :
      List User → List Session → Option Text → ℕ → Option AuthenticatedUser × List Session
  unfolding resolve_hash
  resolve_session users sessions none now = (none, sessions)
  resolve_session users sessions (some []) now = (none, sessions)
  resolve_session users sessions (some (c ∷ s)) now =
      resolve_hash users sessions (sha256 (c ∷ s)) now

  unfoldable pub revoke_session : List Session → Option Text → ℕ → List Session
  unfolding revoke_hash
  revoke_session sessions none now = sessions
  revoke_session sessions (some []) now = sessions
  revoke_session sessions (some (c ∷ s)) now = revoke_hash sessions (sha256 (c ∷ s)) now
