-- ===== src/Auth/Revocation.antt =====
-- packages/auth/src/session.ts: a revoked session never comes back.
use validateur_facturx.Common.{
  ℕ, ◌≡◌, refl, sym, ◌∙◌, ap, ap₂, arith, Bool, true, false, List, [], ◌∷◌, ◌++◌, All, All-append,
  any, find, none, some, Bool-cases, Option-cases, inl, inr, ◌||◌,
}
use validateur_facturx.Common.Text.{Text, text_eq, text_eq_iff}
use validateur_facturx.Auth.Session.{
  Session, User, SessionOrigin, is_some, has_hash, new_session, create_session, is_live,
  revoke_live, resolve_hash, resolve_found, revoke_hash, has_user_id,
}
use validateur_facturx.Auth.Lifetime.{
  SessionStep, SessionSteps, creates, resolves, revokes, revokes_all, done, then_step, IsLater,
  AllLater, resolved-AllLater, revoked-AllLater, revoked_all-AllLater,
}
use mathlib.Core.Path.{subst}

-- A hash that has a row, and whose rows are all revoked.
IsEnded : Text → List Session → Type 0
IsEnded hash ss =
    (any (has_hash hash) ss ≡ true)
    × All (λ s. has_hash hash s ≡ true → is_some s.revoked_at ≡ true) ss

later_known :
    (hash : Text) (ss ts : List Session)
    → AllLater ss ts
    → any (has_hash hash) ts ≡ any (has_hash hash) ss
unfolding AllLater IsLater
later_known hash [] [] l = refl
later_known hash [] (t ∷ ts) l = absurd l
later_known hash (s ∷ ss) [] l = absurd l
later_known hash (s ∷ ss) (t ∷ ts) ((e, _, _), l) =
    ap₂ (λ h b. text_eq h hash || b) e (later_known hash ss ts l)

later_revoked :
    (hash : Text) (ss ts : List Session)
    → AllLater ss ts
    → All (λ s. has_hash hash s ≡ true → is_some s.revoked_at ≡ true) ss
    → All (λ s. has_hash hash s ≡ true → is_some s.revoked_at ≡ true) ts
unfolding AllLater IsLater
later_revoked hash [] [] l h = tt
later_revoked hash [] (t ∷ ts) l h = absurd l
later_revoked hash (s ∷ ss) [] l h = tt
later_revoked hash (s ∷ ss) (t ∷ ts) ((e, r, _), l) (p, h) =
    ((λ k. r (p (ap (λ x. text_eq x hash) (sym e) ∙ k))), later_revoked hash ss ts l h)

later-IsEnded :
    (hash : Text) (ss ts : List Session) → AllLater ss ts → IsEnded hash ss → IsEnded hash ts
unfolding IsEnded
later-IsEnded hash ss ts l (known, h) =
    (later_known hash ss ts l ∙ known, later_revoked hash ss ts l h)

any-append_left :
    (p : Session → Bool) (ss ts : List Session) → any p ss ≡ true → any p (ss ++ ts) ≡ true
any-append_left p [] ts h = cc
any-append_left p (s ∷ ss) ts h = ground (arith, any-append_left p ss ts)

created-IsEnded :
    (hash : Text) (ss : List Session) (id user_id new_hash : Text) (origin : SessionOrigin)
    (now : ℕ)
    → IsEnded hash ss
    → IsEnded hash (create_session ss id user_id new_hash origin now)
unfolding create_session IsEnded
created-IsEnded hash ss id user_id new_hash origin now (known, h) =
    elim (Bool-cases (any (has_hash new_hash) ss)) [
      | inl e ↦ rw e (known, h)
      | inr e ↦
          let row = new_session id user_id new_hash origin now in
          let other : text_eq new_hash hash ≡ true → is_some row.revoked_at ≡ true = λ same.
            let eq : new_hash ≡ hash = (text_eq_iff new_hash hash).0 same in
            let free : any (has_hash hash) ss ≡ false =
              ap (λ x. any (has_hash x) ss) (sym eq) ∙ e in
            absurd cc in
          rw e (
            any-append_left (has_hash hash) ss (row ∷ []) known,
            All-append (λ s. has_hash hash s ≡ true → is_some s.revoked_at ≡ true) ss (row ∷ []) h
                (other, tt),
          )
    ]

step-IsEnded :
    {a b : List Session} (hash : Text) → SessionStep a b → IsEnded hash a → IsEnded hash b
step-IsEnded hash (creates ss id user_id new_hash origin now) h =
    created-IsEnded hash ss id user_id new_hash origin now h
step-IsEnded hash (resolves ss users other now) h =
    later-IsEnded hash ss _ (resolved-AllLater users ss other now) h
step-IsEnded hash (revokes ss other now) h =
    later-IsEnded hash ss _ (revoked-AllLater other now ss) h
step-IsEnded hash (revokes_all ss user_id now) h =
    later-IsEnded hash ss _ (revoked_all-AllLater user_id now ss) h

steps-IsEnded :
    {a b : List Session} (hash : Text) → SessionSteps a b → IsEnded hash a → IsEnded hash b
steps-IsEnded hash (done ss) h = h
steps-IsEnded hash (then_step s t) h = step-IsEnded hash t (steps-IsEnded hash s h)

found_revoked :
    (hash : Text) (ss : List Session) (s : Session)
    → All (λ s. has_hash hash s ≡ true → is_some s.revoked_at ≡ true) ss
    → find (has_hash hash) ss ≡ some s
    → is_some s.revoked_at ≡ true
found_revoked hash [] s h e = cc
found_revoked hash (t ∷ ts) s (p, h) e = elim (Bool-cases (has_hash hash t)) [
  | inl k ↦
      let hit : find (has_hash hash) (t ∷ ts) ≡ some t = rw k refl in
      let found : some t ≡ some s = sym hit ∙ e in
      let same : t ≡ s = cc in subst (λ x. is_some x.revoked_at ≡ true) same (p k)
  | inr k ↦
      let skipped : find (has_hash hash) (t ∷ ts) ≡ find (has_hash hash) ts = rw k refl in
      found_revoked hash ts s h (sym skipped ∙ e)
]

refused_found :
    (ss : List Session) (s : Session) (u : User) (now : ℕ)
    → is_some s.revoked_at ≡ true
    → (resolve_found ss s u now).0 ≡ none
unfolding resolve_found is_live
refused_found ss s u now r = rw r refl

ended_refused :
    (users : List User) (ss : List Session) (hash : Text) (now : ℕ)
    → IsEnded hash ss
    → (resolve_hash users ss hash now).0 ≡ none
unfolding IsEnded resolve_hash
ended_refused users ss hash now (_, h) = elim (Option-cases (find (has_hash hash) ss)) [
  | inl e ↦ rw (resolve_hash, e) refl
  | inr (s, e) ↦
      let revoked = found_revoked hash ss s h e in
      elim (Option-cases (find (has_user_id s.user_id) users)) [
        | inl f ↦ rw (resolve_hash, e, f) refl
        | inr (u, f) ↦ rw (resolve_hash, e, f) (refused_found ss s u now revoked)
      ]
]

revoke_live_revoked : (now : ℕ) (s : Session) → is_some (revoke_live now s).revoked_at ≡ true
revoke_live_revoked now s = elim (Bool-cases (is_some s.revoked_at)) [
  | inl e ↦ rw e e
  | inr e ↦ rw e refl
]

revoked_rows :
    (ss : List Session) (hash : Text) (now : ℕ)
    → All (λ s. has_hash hash s ≡ true → is_some s.revoked_at ≡ true) (revoke_hash ss hash now)
unfolding revoke_hash
revoked_rows [] hash now = tt
revoked_rows (s ∷ ss) hash now = elim (Bool-cases (has_hash hash s)) [
  | inl e ↦ rw e ((λ k. revoke_live_revoked now s), revoked_rows ss hash now)
  | inr e ↦ rw e ((λ k. absurd cc), revoked_rows ss hash now)
]

revoked-IsEnded :
    (ss : List Session) (hash : Text) (now : ℕ)
    → any (has_hash hash) ss ≡ true
    → IsEnded hash (revoke_hash ss hash now)
unfolding IsEnded
revoked-IsEnded ss hash now known = (
  later_known hash ss (revoke_hash ss hash now) (revoked-AllLater hash now ss) ∙ known,
  revoked_rows ss hash now,
)

-- Once a token that has a session is revoked, it resolves to nobody: at once, and after any sequence
-- of later sessions opened, requests and revocations, at any time.
pub revoked_forever :
    (users : List User) (ss later : List Session) (hash : Text) (now now2 : ℕ)
    → any (has_hash hash) ss ≡ true
    → SessionSteps (revoke_hash ss hash now) later
    → (resolve_hash users later hash now2).0 ≡ none
revoked_forever users ss later hash now now2 known steps =
    ended_refused users later hash now2
      (steps-IsEnded hash steps (revoked-IsEnded ss hash now known))
