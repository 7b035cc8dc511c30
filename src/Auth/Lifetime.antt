-- ===== src/Auth/Lifetime.antt =====
-- packages/auth/src/session.ts: a session ends thirty days after its creation at the latest, whatever
-- the requests that use it.
use validateur_facturx.Common.{
  ℕ, ◌+◌, ◌≤◌, ◌≡◌, refl, arith, true, List, [], ◌∷◌, All, All-append, any, find, Bool-cases,
  Option-cases, inl, inr,
}
use validateur_facturx.Common.Text.{Text, text_eq}
use validateur_facturx.Auth.Session.{
  Session, User, SessionOrigin, is_some, has_hash, new_session, create_session, is_live, touch,
  update_session, revoke_live, resolve_hash, resolve_found, revoke_hash, revoke_all_sessions,
  session_absolute_max_age_ms, has_user_id, needs_touch,
}

-- The writes of session.ts, in any order.
pub data SessionStep : List Session → List Session → Type 0 where
  creates :
      (ss : List Session) (id user_id hash : Text) (origin : SessionOrigin) (now : ℕ)
      → SessionStep ss (create_session ss id user_id hash origin now)
  resolves :
      (ss : List Session) (users : List User) (hash : Text) (now : ℕ)
      → SessionStep ss (resolve_hash users ss hash now).1
  revokes : (ss : List Session) (hash : Text) (now : ℕ) → SessionStep ss (revoke_hash ss hash now)
  revokes_all :
      (ss : List Session) (user_id : Text) (now : ℕ)
      → SessionStep ss (revoke_all_sessions ss user_id now)

pub data SessionSteps : List Session → List Session → Type 0 where
  done : (ss : List Session) → SessionSteps ss ss
  then_step : {a b c : List Session} → SessionSteps a b → SessionStep b c → SessionSteps a c

abbrev pub IsBounded : Session → Type 0
IsBounded s = s.expires_at ≤ s.created_at + session_absolute_max_age_ms

-- What a write to a row keeps: its token, its revocation, and the bound on its expiry.
unfoldable pub IsLater : Session → Session → Type 0
IsLater s t =
    (t.token_hash ≡ s.token_hash)
    × (is_some s.revoked_at ≡ true → is_some t.revoked_at ≡ true)
    × (IsBounded s → IsBounded t)

IsLater-refl : (s : Session) → IsLater s s
unfolding IsLater
IsLater-refl s = (refl, (λ h. h), λ h. h)

touch-IsLater : (now : ℕ) (s : Session) → IsLater s (touch now s)
unfolding IsLater touch
touch-IsLater now s = (refl, (λ h. h), λ h. ground arith)

revoke_live-IsLater : (now : ℕ) (s : Session) → IsLater s (revoke_live now s)
unfolding IsLater
revoke_live-IsLater now s = elim (Bool-cases (is_some s.revoked_at)) [
  | inl e ↦ rw e (refl, (λ h. e), λ h. h)
  | inr e ↦ rw e (refl, (λ h. refl), λ h. h)
]

unfoldable pub AllLater : List Session → List Session → Type 0
AllLater [] [] = Unit
AllLater (s ∷ ss) (t ∷ ts) = IsLater s t × AllLater ss ts
AllLater _ _ = ⊥

AllLater-refl : (ss : List Session) → AllLater ss ss
unfolding AllLater
AllLater-refl [] = tt
AllLater-refl (s ∷ ss) = (IsLater-refl s, AllLater-refl ss)

touched-AllLater :
    (id : Text) (now : ℕ) (ss : List Session) → AllLater ss (update_session id (touch now) ss)
unfolding AllLater
touched-AllLater id now [] = tt
touched-AllLater id now (s ∷ ss) = elim (Bool-cases (text_eq s.id id)) [
  | inl e ↦ rw e (touch-IsLater now s, AllLater-refl ss)
  | inr e ↦ rw e (IsLater-refl s, touched-AllLater id now ss)
]

pub revoked-AllLater :
    (hash : Text) (now : ℕ) (ss : List Session) → AllLater ss (revoke_hash ss hash now)
unfolding AllLater revoke_hash
revoked-AllLater hash now [] = tt
revoked-AllLater hash now (s ∷ ss) = elim (Bool-cases (has_hash hash s)) [
  | inl e ↦ rw e (revoke_live-IsLater now s, revoked-AllLater hash now ss)
  | inr e ↦ rw e (IsLater-refl s, revoked-AllLater hash now ss)
]

pub revoked_all-AllLater :
    (user_id : Text) (now : ℕ) (ss : List Session)
    → AllLater ss (revoke_all_sessions ss user_id now)
unfolding AllLater revoke_all_sessions
revoked_all-AllLater user_id now [] = tt
revoked_all-AllLater user_id now (s ∷ ss) = elim (Bool-cases (text_eq s.user_id user_id)) [
  | inl e ↦ rw e (revoke_live-IsLater now s, revoked_all-AllLater user_id now ss)
  | inr e ↦ rw e (IsLater-refl s, revoked_all-AllLater user_id now ss)
]

found-AllLater :
    (ss : List Session) (s : Session) (u : User) (now : ℕ)
    → AllLater ss (resolve_found ss s u now).1
unfolding resolve_found
found-AllLater ss s u now = elim (Bool-cases (is_live s u now)) [
  | inr e ↦ rw e (AllLater-refl ss)
  | inl e ↦ elim (Bool-cases (needs_touch s now)) [
    | inl t ↦ rw (e, t) (touched-AllLater s.id now ss)
    | inr t ↦ rw (e, t) (AllLater-refl ss)
  ]
]

pub resolved-AllLater :
    (users : List User) (ss : List Session) (hash : Text) (now : ℕ)
    → AllLater ss (resolve_hash users ss hash now).1
unfolding resolve_hash
resolved-AllLater users ss hash now = elim (Option-cases (find (has_hash hash) ss)) [
  | inl e ↦ rw (resolve_hash, e) (AllLater-refl ss)
  | inr (s, e) ↦ elim (Option-cases (find (has_user_id s.user_id) users)) [
    | inl f ↦ rw (resolve_hash, e, f) (AllLater-refl ss)
    | inr (u, f) ↦ rw (resolve_hash, e, f) (found-AllLater ss s u now)
  ]
]

later-IsBounded : (ss ts : List Session) → AllLater ss ts → All IsBounded ss → All IsBounded ts
unfolding AllLater IsLater
later-IsBounded [] [] l h = tt
later-IsBounded [] (t ∷ ts) l h = absurd l
later-IsBounded (s ∷ ss) [] l h = tt
later-IsBounded (s ∷ ss) (t ∷ ts) ((_, _, b), l) (p, h) = (b p, later-IsBounded ss ts l h)

created-IsBounded :
    (ss : List Session) (id user_id hash : Text) (origin : SessionOrigin) (now : ℕ)
    → All IsBounded ss
    → All IsBounded (create_session ss id user_id hash origin now)
unfolding create_session
created-IsBounded ss id user_id hash origin now h = elim (Bool-cases (any (has_hash hash) ss)) [
  | inl e ↦ rw e h
  | inr e ↦
      rw e
        (All-append IsBounded ss (new_session id user_id hash origin now ∷ []) h (omega arith, tt))
]

step-IsBounded : {a b : List Session} → SessionStep a b → All IsBounded a → All IsBounded b
step-IsBounded (creates ss id user_id hash origin now) h =
    created-IsBounded ss id user_id hash origin now h
step-IsBounded (resolves ss users hash now) h =
    later-IsBounded ss _ (resolved-AllLater users ss hash now) h
step-IsBounded (revokes ss hash now) h = later-IsBounded ss _ (revoked-AllLater hash now ss) h
step-IsBounded (revokes_all ss user_id now) h =
    later-IsBounded ss _ (revoked_all-AllLater user_id now ss) h

-- However often it is used, no session that these operations have made expires more than thirty days
-- after its creation.
pub steps-IsBounded : {ss : List Session} → SessionSteps [] ss → All IsBounded ss
steps-IsBounded steps = from_bounded steps tt
  where
    from_bounded : {a b : List Session} → SessionSteps a b → All IsBounded a → All IsBounded b
    from_bounded (done ss) h = h
    from_bounded (then_step s t) h = step-IsBounded t (from_bounded s h)
