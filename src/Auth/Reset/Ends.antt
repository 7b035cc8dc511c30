-- ===== src/Auth/Reset/Ends.antt =====
-- packages/auth/src/password-reset.ts: what setting a password leaves behind.
use validateur_facturx.Common.{
  ℕ, ◌≡◌, ◌≢◌, ◌≤◌, refl, sym, ap, ◌∙◌, arith, Bool, true, false, List, [], ◌∷◌, Option, none, some,
  Result, ok, err, find, keep, All, Bool-cases, Option-cases, ◌⊎◌, inl, inr,
}
use mathlib.Core.Path.{subst}
use validateur_facturx.Common.Finding.{find_passes, All-find}
use validateur_facturx.Common.Text.{Text, text_eq, text_eq_iff}
use validateur_facturx.Auth.Session.{
  User, Session, AuthenticatedUser, is_some, is_live, acting_user, resolve_hash, resolve_found,
  revoke_live, revoke_all_sessions, has_hash, has_user_id,
}
use validateur_facturx.Auth.Credential.{
  CredentialToken, CredentialTokenPurpose, CredentialTokenHolder, check_hash,
  consume_credential_token, is_consumable, mark_used,
}
use validateur_facturx.Auth.Links.{LinkSteps, consume_once}
use validateur_facturx.Auth.Password.{password_problem}
use validateur_facturx.Auth.Reset.{
  AuthDb, SetPasswordOutcome, password_set, refused, link_refused, weak, failure_message,
  set_password_hash, complete_reset, set_password_with_token,
}

Result-cases {ℓ κ} :
    {X : Type ℓ} {V : Type κ} (r : Result X V) → ((x : X) × (r ≡ err x)) ⊎ ((v : V) × (r ≡ ok v))
Result-cases (err x) = inl (x, refl)
Result-cases (ok v) = inr (v, refl)

-- Every session of the user is revoked.
abbrev IsOver : Text → Session → Type 0
IsOver user_id s = text_eq s.user_id user_id ≡ true → is_some s.revoked_at ≡ true

revoke_live-IsOver : (now : ℕ) (user_id : Text) (s : Session) → IsOver user_id (revoke_live now s)
revoke_live-IsOver now user_id s h = elim (Bool-cases (is_some s.revoked_at)) [
  | inl e ↦ rw e e
  | inr e ↦ rw e refl
]

revoke_all_sessions-IsOver :
    (ss : List Session) (user_id : Text) (now : ℕ)
    → All (IsOver user_id) (revoke_all_sessions ss user_id now)
unfolding revoke_all_sessions
revoke_all_sessions-IsOver [] user_id now = tt
revoke_all_sessions-IsOver (s ∷ ss) user_id now = elim (Bool-cases (text_eq s.user_id user_id)) [
  | inl e ↦ rw e (revoke_live-IsOver now user_id s, revoke_all_sessions-IsOver ss user_id now)
  | inr e ↦ rw e ((λ h. absurd cc), revoke_all_sessions-IsOver ss user_id now)
]

some-injective :
    (a b : AuthenticatedUser) → ◌≡◌ {A = Option AuthenticatedUser} (some a) (some b) → a ≡ b
some-injective a b h = cc

-- What a session that resolves is.
resolve_found-live :
    (ss : List Session) (s : Session) (u : User) (now : ℕ) (who : AuthenticatedUser)
    → (resolve_found ss s u now).0 ≡ some who
    → (is_some s.revoked_at ≡ false) × (who.user_id ≡ u.id)
unfolding resolve_found is_live acting_user
resolve_found-live ss s u now who h = elim (Bool-cases (is_live s u now)) [
  | inl e ↦
      let found : (resolve_found ss s u now).0 ≡ some (acting_user s u) =
        rw (resolve_found, e) refl in
      let same = sym found ∙ h in
      (ground (arith, e), sym (ap (λ a. a.user_id) (some-injective (acting_user s u) who same)))
  | inr e ↦ let found : (resolve_found ss s u now).0 ≡ none = rw (resolve_found, e) refl in cc
]

over-unresolved :
    (users : List User) (ss : List Session) (user_id : Text)
    → All (IsOver user_id) ss
    → (hash : Text) (now : ℕ) (who : AuthenticatedUser)
    → (resolve_hash users ss hash now).0 ≡ some who
    → who.user_id ≢ user_id
unfolding resolve_hash
over-unresolved users ss user_id over hash now who h same =
    elim (Option-cases (find (has_hash hash) ss)) [
      | inl e ↦
          let none_ : (resolve_hash users ss hash now).0 ≡ none = rw (resolve_hash, e) refl in cc
      | inr (s, e) ↦ elim (Option-cases (find (has_user_id s.user_id) users)) [
        | inl f ↦
            let none_ : (resolve_hash users ss hash now).0 ≡ none = rw (resolve_hash, e, f) refl in
            cc
        | inr (u, f) ↦
            let step : (resolve_hash users ss hash now).0 ≡ (resolve_found ss s u now).0 =
              rw (resolve_hash, e, f) refl in
            let (live, is_user) = resolve_found-live ss s u now who (sym step ∙ h) in
            let owner : text_eq u.id s.user_id ≡ true = find_passes _ users u f in
            let own : s.user_id ≡ user_id =
              sym ((text_eq_iff u.id s.user_id).0 owner) ∙ sym is_user ∙ same in
            let revoked =
              All-find (IsOver user_id) _ ss s over e ((text_eq_iff s.user_id user_id).1 own) in
            absurd cc
      ]
    ]

set_password_hash-found :
    (us : List User) (user_id digest : Text) (u : User)
    → find (has_user_id user_id) us ≡ some u
    → find (has_user_id user_id) (set_password_hash us user_id digest)
      ≡ some (record u { password_hash = some digest })
unfolding set_password_hash
set_password_hash-found [] user_id digest u h = cc
set_password_hash-found (x ∷ us) user_id digest u h = elim (Bool-cases (has_user_id user_id x)) [
  | inl e ↦
      let first : find (has_user_id user_id) (x ∷ us) ≡ some x = rw e refl in
      let same : x ≡ u = found-injective x u (sym first ∙ h) in
      rw (e, e) (ap (λ (y : User). some (record y { password_hash = some digest })) same)
  | inr e ↦
      let later : find (has_user_id user_id) (x ∷ us) ≡ find (has_user_id user_id) us = rw e refl in
      rw (e, e) (set_password_hash-found us user_id digest u (sym later ∙ h))
]
  where
    found-injective : (x u : User) → ◌≡◌ {A = Option User} (some x) (some u) → x ≡ u
    found-injective x u h = cc

-- A password that was set: it is the user's, nobody is signed in as the user, and the link is spent,
-- whatever happens to the links afterwards.
pub record IsPasswordSet (db : AuthDb) (holder : CredentialTokenHolder) (digest : Text) (now : ℕ)
    (after : AuthDb) : Type 0 where
  pub password :
      (u : User)
      → find (has_user_id holder.user_id) db.users ≡ some u
      → find (has_user_id holder.user_id) after.users
        ≡ some (record u { password_hash = some digest })
  pub signed_out :
      (hash : Text) (at : ℕ) (who : AuthenticatedUser)
      → (resolve_hash after.users after.sessions hash at).0 ≡ some who
      → who.user_id ≢ holder.user_id
  pub spent :
      (fresh : Text → Bool) (later : List CredentialToken) (at : ℕ)
      → fresh holder.token_id ≡ false
      → now ≤ at
      → LinkSteps fresh after.tokens later
      → (consume_credential_token later holder.token_id at).0 ≡ false

-- The identifiers of the links are all different: they are the primary key.
unfoldable pub HasUniqueIds : List CredentialToken → Type 0
HasUniqueIds [] = Unit
HasUniqueIds (t ∷ ts) = All (λ u. text_eq u.id t.id ≡ false) ts × HasUniqueIds ts

none_consumable :
    (id : Text) (now : ℕ) (ts : List CredentialToken)
    → All (λ u. text_eq u.id id ≡ false) ts
    → keep (is_consumable id now) ts ≡ []
none_consumable id now [] h = refl
none_consumable id now (t ∷ ts) (p, h) = rw p (none_consumable id now ts h)

-- Where not exactly one row is updated, none is.
not_consumed :
    (id : Text) (now : ℕ) (ts : List CredentialToken)
    → HasUniqueIds ts
    → (consume_credential_token ts id now).0 ≡ false
    → mark_used id now ts ≡ ts
unfolding consume_credential_token mark_used HasUniqueIds
not_consumed id now [] u h = refl
not_consumed id now (t ∷ ts) (others, u) h = elim (Bool-cases (is_consumable id now t)) [
  | inl e ↦
      let same : t.id ≡ id = (text_eq_iff t.id id).0 (ground (arith, e)) in
      let rest : keep (is_consumable id now) ts ≡ [] =
        none_consumable id now ts
          (subst (λ x. All (λ (c : CredentialToken). text_eq c.id x ≡ false) ts) same others) in
      let one : (consume_credential_token (t ∷ ts) id now).0 ≡ true = rw (e, rest) refl in absurd cc
  | inr e ↦
      let later : (consume_credential_token (t ∷ ts) id now).0
          ≡ (consume_credential_token ts id now).0 =
        rw e refl in
      rw e (ap (λ us. t ∷ us) (not_consumed id now ts u (sym later ∙ h)))
]

-- What a submission of a link leaves: the effects of its outcome.
unfoldable pub Leaves :
    AuthDb
    → AuthDb
    → Text
    → Text
    → CredentialTokenPurpose
    → ℕ
    → SetPasswordOutcome
    → AuthDb
    → Type 0
Leaves read db hash digest purpose now (password_set user_id email name) after =
    (holder : CredentialTokenHolder) × (check_hash read.users read.tokens hash purpose now
      ≡ ok holder)
    × (holder.user_id ≡ user_id)
    × (holder.email ≡ email)
    × IsPasswordSet db holder digest now after
Leaves read db hash digest purpose now (refused reason message) after =
    (after.users ≡ db.users) × (after.tokens ≡ db.tokens) × (after.sessions ≡ db.sessions)

complete_reset-Leaves :
    (read db : AuthDb) (holder : CredentialTokenHolder) (hash digest : Text)
    (purpose : CredentialTokenPurpose) (now : ℕ)
    → HasUniqueIds db.tokens
    → check_hash read.users read.tokens hash purpose now ≡ ok holder
    → Leaves read db hash digest purpose now
        (complete_reset db holder digest now).0
        (complete_reset db holder digest now).1
unfolding complete_reset Leaves
complete_reset-Leaves read db holder hash digest purpose now unique checked =
    elim (Bool-cases (consume_credential_token db.tokens holder.token_id now).0) [
      | inl e ↦ rw e (
        holder,
        checked,
        refl,
        refl,
        record {
          password = λ u h. set_password_hash-found db.users holder.user_id digest u h;
          signed_out =
              over-unresolved (set_password_hash db.users holder.user_id digest)
                (revoke_all_sessions db.sessions holder.user_id now) holder.user_id
                (revoke_all_sessions-IsOver db.sessions holder.user_id now);
          spent = λ fresh later at old ordered steps.
              consume_once fresh db.tokens later holder.token_id now at old ordered steps;
        },
      )
      | inr e ↦
          let kept : (consume_credential_token db.tokens holder.token_id now).1 ≡ db.tokens =
            unfold consume_credential_token in
            not_consumed holder.token_id now db.tokens unique e in
          rw e (refl, kept, refl)
    ]

-- Setting a password with a link has one of two effects, also where other requests wrote between
-- the check of the link and its use, as long as the identifiers of the links are all different. When
-- it succeeds, the link that was submitted passed its check, the user that it is for has the new
-- digest, no session resolves to that user any more, and that very link cannot be used again, provided
-- that no new row gets its identifier. When it is refused, no password, no session and no link has
-- changed, so that a link which was refused for a weak password can still be used.
pub set_password-Leaves :
    (read db : AuthDb) (hash password digest : Text) (purpose : CredentialTokenPurpose) (now : ℕ)
    → HasUniqueIds db.tokens
    → Leaves read db hash digest purpose now
        (set_password_with_token read db hash password digest purpose now).0
        (set_password_with_token read db hash password digest purpose now).1
unfolding set_password_with_token Leaves
set_password-Leaves read db hash password digest purpose now unique =
    let run = set_password_with_token read db hash password digest purpose now in
    elim (Result-cases (check_hash read.users read.tokens hash purpose now)) [
      | inl (reason, e) ↦
          let step : run ≡ (refused (link_refused reason) (failure_message reason), db) =
            rw (set_password_with_token, e) refl in
          rw step (refl, refl, refl)
      | inr (holder, e) ↦ elim (Option-cases (password_problem password)) [
        | inl p ↦
            let step : run ≡ complete_reset db holder digest now =
              rw (set_password_with_token, e, p) refl in
            rw step (complete_reset-Leaves read db holder hash digest purpose now unique e)
        | inr (problem, p) ↦
            let step : run ≡ (refused weak problem, db) = rw (set_password_with_token, e, p) refl in
            rw step (refl, refl, refl)
      ]
    ]
