-- ===== src/Auth/Links.antt =====
-- packages/auth/src/credential-tokens.ts: a link works once, whatever else writes to the links.
use validateur_facturx.Common.{
  ℕ, ◌≤◌, ◌≡◌, refl, ap, arith, Bool, true, false, List, [], ◌∷◌, All, All-append, keep, Option,
  Bool-cases, inl, inr, ◌&&◌,
}
use validateur_facturx.Common.Text.{Text, text_eq, text_eq_iff}
use validateur_facturx.Auth.Credential.{
  CredentialToken, CredentialTokenPurpose, is_open, belongs, invalidate_earlier, new_token,
  create_credential_token, is_consumable, mark_used, consume_credential_token, is_recent,
  purge_expired_credential_tokens,
}

-- The statements that write to the links, in any order; issuing a link is two of them, with others
-- between them. `fresh` says which identifiers a new row may get.
pub data LinkSteps (fresh : Text → Bool)
    : List CredentialToken → List CredentialToken → Type 0 where
  done : (ts : List CredentialToken) → LinkSteps fresh ts ts
  then_supersede :
      {a b : List CredentialToken} (user_id : Text) (purpose : CredentialTokenPurpose) (now : ℕ)
      → LinkSteps fresh a b
      → LinkSteps fresh a (invalidate_earlier user_id purpose now b)
  then_create :
      {a b : List CredentialToken} (id user_id : Text) (purpose : CredentialTokenPurpose)
      (hash : Text) (created_by : Option Text) (now : ℕ)
      → LinkSteps fresh a b
      → fresh id ≡ true
      → LinkSteps fresh a (create_credential_token b id user_id purpose hash created_by now)
  then_consume :
      {a b : List CredentialToken} (id : Text) (now : ℕ)
      → LinkSteps fresh a b
      → LinkSteps fresh a (consume_credential_token b id now).1
  then_purge :
      {a b : List CredentialToken} (older_than : ℕ)
      → LinkSteps fresh a b
      → LinkSteps fresh a (purge_expired_credential_tokens b older_than)

-- No row can be consumed under the identifier, from the given date on.
abbrev pub IsSpent : Text → ℕ → List CredentialToken → Type 0
IsSpent id now = All (λ t. is_consumable id now t ≡ false)

invalidated-IsSpent :
    (id : Text) (now : ℕ) (user_id : Text) (purpose : CredentialTokenPurpose) (at : ℕ)
    (ts : List CredentialToken)
    → IsSpent id now ts
    → IsSpent id now (invalidate_earlier user_id purpose at ts)
unfolding invalidate_earlier
invalidated-IsSpent id now user_id purpose at [] h = tt
invalidated-IsSpent id now user_id purpose at (t ∷ ts) (p, h) =
    elim (Bool-cases (belongs user_id purpose t && is_open t)) [
      | inl e ↦ rw e (ground arith, invalidated-IsSpent id now user_id purpose at ts h)
      | inr e ↦ rw e (p, invalidated-IsSpent id now user_id purpose at ts h)
    ]

marked-IsSpent :
    (id : Text) (now : ℕ) (other : Text) (at : ℕ) (ts : List CredentialToken)
    → IsSpent id now ts
    → IsSpent id now (mark_used other at ts)
unfolding mark_used
marked-IsSpent id now other at [] h = tt
marked-IsSpent id now other at (t ∷ ts) (p, h) = elim (Bool-cases (is_consumable other at t)) [
  | inl e ↦ rw e (ground arith, marked-IsSpent id now other at ts h)
  | inr e ↦ rw e (p, marked-IsSpent id now other at ts h)
]

consumed-IsSpent :
    (id : Text) (now : ℕ) (ts : List CredentialToken) → IsSpent id now (mark_used id now ts)
unfolding mark_used
consumed-IsSpent id now [] = tt
consumed-IsSpent id now (t ∷ ts) = elim (Bool-cases (is_consumable id now t)) [
  | inl e ↦ rw e (ground arith, consumed-IsSpent id now ts)
  | inr e ↦ rw e (e, consumed-IsSpent id now ts)
]

kept-IsSpent :
    (id : Text) (now : ℕ) (p : CredentialToken → Bool) (ts : List CredentialToken)
    → IsSpent id now ts
    → IsSpent id now (keep p ts)
kept-IsSpent id now p [] h = tt
kept-IsSpent id now p (t ∷ ts) (q, h) = elim (Bool-cases (p t)) [
  | inl e ↦ rw e (q, kept-IsSpent id now p ts h)
  | inr e ↦ rw e (kept-IsSpent id now p ts h)
]

pub spent_none :
    (id : Text) (now now2 : ℕ) (ts : List CredentialToken)
    → now ≤ now2
    → IsSpent id now ts
    → keep (is_consumable id now2) ts ≡ []
spent_none id now now2 [] le h = refl
spent_none id now now2 (t ∷ ts) le (p, h) =
    let later : is_consumable id now2 t ≡ false = ground (arith, p) in
    rw later (spent_none id now now2 ts le h)

pub created-IsSpent :
    (fresh : Text → Bool) (id : Text) (now : ℕ) (other user_id : Text)
    (purpose : CredentialTokenPurpose) (hash : Text) (by : Option Text) (at : ℕ)
    (ts : List CredentialToken)
    → fresh id ≡ false
    → fresh other ≡ true
    → IsSpent id now ts
    → IsSpent id now (create_credential_token ts other user_id purpose hash by at)
unfolding create_credential_token
created-IsSpent fresh id now other user_id purpose hash by at ts f g h =
    let differs : text_eq other id ≡ false = elim (Bool-cases (text_eq other id)) [
      | inr e ↦ e
      | inl e ↦
          let same : fresh other ≡ fresh id = ap fresh ((text_eq_iff other id).0 e) in absurd cc
    ] in
    All-append (λ t. is_consumable id now t ≡ false) ts
      (new_token other user_id purpose hash by at ∷ []) h (rw differs refl, tt)

pub steps-IsSpent :
    {fresh : Text → Bool} {a b : List CredentialToken} (id : Text) (now : ℕ)
    → fresh id ≡ false
    → LinkSteps fresh a b
    → IsSpent id now a
    → IsSpent id now b
unfolding consume_credential_token purge_expired_credential_tokens
steps-IsSpent id now f (done ts) h = h
steps-IsSpent id now f (then_supersede user_id purpose at ss) h =
    invalidated-IsSpent id now user_id purpose at _ (steps-IsSpent id now f ss h)
steps-IsSpent {fresh = fresh} id now f (then_create other user_id purpose hash by at ss g) h =
    created-IsSpent fresh id now other user_id purpose hash by at _ f g
      (steps-IsSpent id now f ss h)
steps-IsSpent id now f (then_consume other at ss) h =
    marked-IsSpent id now other at _ (steps-IsSpent id now f ss h)
steps-IsSpent id now f (then_purge older_than ss) h =
    kept-IsSpent id now (is_recent older_than) _ (steps-IsSpent id now f ss h)

-- After a link has been submitted, a second submission of it fails, whatever has happened between,
-- provided that no new row gets the identifier of the first.
pub consume_once :
    (fresh : Text → Bool) (ts later : List CredentialToken) (id : Text) (now now2 : ℕ)
    → fresh id ≡ false
    → now ≤ now2
    → LinkSteps fresh (consume_credential_token ts id now).1 later
    → (consume_credential_token later id now2).0 ≡ false
unfolding consume_credential_token
consume_once fresh ts later id now now2 f le steps =
    rw (spent_none id now now2 later le (steps-IsSpent id now f steps (consumed-IsSpent id now ts)))
      refl
