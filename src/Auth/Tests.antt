-- ===== src/Auth/Tests.antt =====
-- packages/auth on concrete inputs, and the theorems applied to them.
use validateur_facturx.Common.{
  ◌≡◌, refl, true, false, none, some, List, [], ◌∷◌, All, Bool, not, arith, err, ◌&&◌,
}
use validateur_facturx.Common.Text.{Text, codes, text_eq}
use validateur_facturx.Auth.Permissions.{
  accountant, client_user, can, invoice_issue, is_scoped_role,
}
use validateur_facturx.Auth.Session.{
  User, Session, SessionOrigin, create_session, resolve_hash, revoke_hash, is_live, acting_user,
  resolve_found, new_session,
}
use validateur_facturx.Auth.Credential.{
  CredentialToken, invitation, superseded, issue_credential_token, create_credential_token,
  invalidate_earlier, consume_credential_token, check_hash, check_found,
}
use validateur_facturx.Auth.Password.{password_problem}
use validateur_facturx.Auth.Reset.{AuthDb, password_set, set_password_with_token, complete_reset}
use validateur_facturx.Auth.Reset.Ends.{Leaves, HasUniqueIds, set_password-Leaves}
use validateur_facturx.Auth.Links.{LinkSteps, consume_once}
use validateur_facturx.Auth.Links
use validateur_facturx.Auth.Newest.{issue_supersedes}
use validateur_facturx.Auth.Lifetime.{
  SessionSteps, IsBounded, done, then_step, creates, resolves, steps-IsBounded,
}
use validateur_facturx.Auth.Revocation.{revoked_forever}

client_may_not_issue : can client_user invoice_issue ≡ false
unfolding can
client_may_not_issue = refl

abbrev a_user : User
a_user = record {
  id = codes "u1";
  tenant_id = codes "t1";
  email = codes "a@b.fr";
  name = none;
  role = accountant;
  password_hash = none;
  disabled_at = none;
  scoped_client_orgs = [];
}

abbrev no_origin : SessionOrigin
no_origin = record { ip_address = none; user_agent = none }

abbrev a_session : Session
a_session = new_session (codes "s1") (codes "u1") (codes "h1") no_origin 1000

-- A live session resolves to its user.
resolve_live :
    (resolve_hash (a_user ∷ []) (a_session ∷ []) (codes "h1") 2000).0
    ≡ some (record {
      user_id = codes "u1";
      tenant_id = codes "t1";
      email = codes "a@b.fr";
      name = none;
      role = accountant;
      session_id = codes "s1";
      client_org_ids = none;
    })
unfolding resolve_hash resolve_found is_live acting_user is_scoped_role
resolve_live = refl

-- A session is opened, and used six days later.
abbrev opened_and_used :
    SessionSteps []
      (resolve_hash
        (a_user ∷ [])
        (create_session [] (codes "s1") (codes "u1") (codes "h1") no_origin 1000)
        (codes "h1")
        518400000).1
opened_and_used =
    then_step
      (then_step (done []) (creates [] (codes "s1") (codes "u1") (codes "h1") no_origin 1000))
      (resolves (create_session [] (codes "s1") (codes "u1") (codes "h1") no_origin 1000)
        (a_user ∷ []) (codes "h1") 518400000)

steps-IsBounded_example :
    All IsBounded
      (resolve_hash
        (a_user ∷ [])
        (create_session [] (codes "s1") (codes "u1") (codes "h1") no_origin 1000)
        (codes "h1")
        518400000).1
steps-IsBounded_example = steps-IsBounded opened_and_used

revoked_forever_example :
    (resolve_hash
      (a_user ∷ [])
      (revoke_hash (a_session ∷ []) (codes "h1") 2000)
      (codes "h1")
      3000).0
    ≡ none
revoked_forever_example =
    revoked_forever (a_user ∷ []) (a_session ∷ []) (revoke_hash (a_session ∷ []) (codes "h1") 2000)
      (codes "h1") 2000 3000 refl (done (revoke_hash (a_session ∷ []) (codes "h1") 2000))

-- No other request writes in between.
abbrev alone : List CredentialToken → List CredentialToken
alone tokens = tokens

abbrev one_link : List CredentialToken
one_link =
    issue_credential_token [] alone (codes "k1") (codes "u1") invitation (codes "h1") none 1000

abbrev two_links : List CredentialToken
two_links =
    issue_credential_token
      (issue_credential_token [] alone (codes "k1") (codes "u1") invitation (codes "h1") none 1000)
      alone (codes "k2") (codes "u1") invitation (codes "h2") none 2000

-- The newest link works, the one before it is superseded.
consume_newest : (consume_credential_token two_links (codes "k2") 3000).0 ≡ true
unfolding issue_credential_token create_credential_token invalidate_earlier consume_credential_token
consume_newest = refl

check_superseded : check_hash (a_user ∷ []) two_links (codes "h1") invitation 3000 ≡ err superseded
unfolding issue_credential_token create_credential_token invalidate_earlier check_hash check_found
check_superseded = refl

abbrev not_k2 : Text → Bool
not_k2 id = not (text_eq id (codes "k2"))

abbrev any_id : Text → Bool
any_id id = true

consume_once_example :
    (consume_credential_token
      (consume_credential_token two_links (codes "k2") 3000).1
      (codes "k2")
      4000).0
    ≡ false
consume_once_example =
    consume_once not_k2 two_links (consume_credential_token two_links (codes "k2") 3000).1
      (codes "k2") 3000 4000 refl (omega arith)
      (Links.LinkSteps.done (consume_credential_token two_links (codes "k2") 3000).1)

abbrev crossed : List CredentialToken
crossed =
    issue_credential_token []
      (λ ts.
        issue_credential_token ts alone (codes "k1") (codes "u1") invitation (codes "h1") none 2000)
      (codes "k2") (codes "u1") invitation (codes "h2") none 2000

-- Two requests whose statements alternate leave two open links.
two_open_links :
    (consume_credential_token crossed (codes "k1") 3000).0
      && (consume_credential_token crossed (codes "k2") 3000).0
    ≡ true
unfolding issue_credential_token create_credential_token invalidate_earlier consume_credential_token
two_open_links = refl

abbrev other_than_k1 : Text → Bool
other_than_k1 id = not (text_eq id (codes "k1"))

abbrev invalidated : List CredentialToken
invalidated = invalidate_earlier (codes "u1") invitation 2000 one_link

issue_supersedes_example :
    ((consume_credential_token
        (issue_credential_token one_link alone
          (codes "k2")
          (codes "u1")
          invitation
          (codes "h2")
          none
          2000)
        (codes "k2")
        3000).0
      ≡ true)
    × ((consume_credential_token
          (issue_credential_token one_link alone
            (codes "k2")
            (codes "u1")
            invitation
            (codes "h2")
            none
            2000)
          (codes "k1")
          4000).0
        ≡ false)
unfolding issue_credential_token create_credential_token invalidate_earlier
issue_supersedes_example =
    issue_supersedes other_than_k1 one_link two_links alone (codes "k1") (codes "k2") (codes "u1")
      invitation (codes "h2") none 2000 3000 4000 refl refl ((λ h. refl), tt)
      (Links.LinkSteps.done invalidated) (refl, tt) (omega arith) (Links.LinkSteps.done two_links)

abbrev a_db : AuthDb
a_db = record { users = a_user ∷ []; tokens = two_links; sessions = a_session ∷ [] }

-- Setting a password with the newest link succeeds, and a short one is refused.
set_with_newest :
    (set_password_with_token a_db a_db
      (codes "h2")
      (codes "correct horse")
      (codes "digest")
      invitation
      3000).0
    ≡ password_set (codes "u1") (codes "a@b.fr") none
unfolding set_password_with_token complete_reset password_problem issue_credential_token
    create_credential_token invalidate_earlier consume_credential_token check_hash check_found
set_with_newest = refl

set_short :
    (set_password_with_token a_db a_db
      (codes "h2")
      (codes "short")
      (codes "digest")
      invitation
      3000).1
    ≡ a_db
unfolding set_password_with_token complete_reset password_problem issue_credential_token
    create_credential_token invalidate_earlier consume_credential_token check_hash check_found
set_short = refl

set_password-Leaves_example :
    Leaves a_db a_db
      (codes "h2")
      (codes "digest")
      invitation
      3000
      (set_password_with_token a_db a_db
        (codes "h2")
        (codes "correct horse")
        (codes "digest")
        invitation
        3000).0
      (set_password_with_token a_db a_db
        (codes "h2")
        (codes "correct horse")
        (codes "digest")
        invitation
        3000).1
unfolding HasUniqueIds issue_credential_token create_credential_token invalidate_earlier
set_password-Leaves_example =
    set_password-Leaves a_db a_db (codes "h2") (codes "correct horse") (codes "digest") invitation
      3000 ((refl, tt), (tt, tt))
