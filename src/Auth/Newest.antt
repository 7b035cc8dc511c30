-- ===== src/Auth/Newest.antt =====
-- packages/auth/src/credential-tokens.ts: a new link takes the place of the earlier ones.
use validateur_facturx.Common.{
  ℕ, ◌+◌, ◌<◌, ◌≡◌, refl, ◌∙◌, arith, Bool, true, false, List, [], ◌∷◌, ◌++◌, keep, All, Option,
  Bool-cases, inl, inr, ◌&&◌,
}
use validateur_facturx.Common.Text.{Text, text_eq, text_eq_refl}
use validateur_facturx.Auth.Credential.{
  CredentialToken, CredentialTokenPurpose, is_open, belongs, ttl_for, invalidate_earlier, new_token,
  create_credential_token, issue_credential_token, is_consumable, consume_credential_token,
}
use validateur_facturx.Auth.Links.{LinkSteps, IsSpent, spent_none, created-IsSpent, steps-IsSpent}

-- Every row with the identifier is a link of the user for the purpose.
abbrev pub IsLinkOf : Text → CredentialTokenPurpose → Text → List CredentialToken → Type 0
IsLinkOf user_id purpose id = All (λ t. text_eq t.id id ≡ true → belongs user_id purpose t ≡ true)

-- No row has the identifier.
abbrev pub IsNew : Text → List CredentialToken → Type 0
IsNew id = All (λ t. text_eq t.id id ≡ false)

superseded-IsSpent :
    (user_id : Text) (purpose : CredentialTokenPurpose) (id : Text) (now : ℕ)
    (ts : List CredentialToken)
    → IsLinkOf user_id purpose id ts
    → IsSpent id 0 (invalidate_earlier user_id purpose now ts)
unfolding invalidate_earlier
superseded-IsSpent user_id purpose id now [] h = tt
superseded-IsSpent user_id purpose id now (t ∷ ts) (p, h) =
    let rest = superseded-IsSpent user_id purpose id now ts h in
    elim (Bool-cases (belongs user_id purpose t && is_open t)) [
      | inl e ↦ rw e (ground arith, rest)
      | inr e ↦ rw e (
        elim (Bool-cases (text_eq t.id id)) [
          | inl same ↦ let owned = p same in ground arith
          | inr other ↦ rw other refl
        ],
        rest,
      )
    ]

keep-append_new :
    (id : Text) (at : ℕ) (ts us : List CredentialToken)
    → IsNew id ts
    → keep (is_consumable id at) (ts ++ us) ≡ keep (is_consumable id at) us
keep-append_new id at [] us h = refl
keep-append_new id at (t ∷ ts) us (p, h) = rw p (keep-append_new id at ts us h)

-- Issuing a link, whatever other requests do between its two statements: the rows that it leaves let the new
-- link, whose identifier no other row has, be used at any time before it expires; and an earlier link of
-- the user for the purpose can never be used again, whatever is issued, used and purged afterwards,
-- provided that no new row gets its identifier.
pub issue_supersedes :
    (fresh : Text → Bool) (ts later : List CredentialToken)
    (between : List CredentialToken → List CredentialToken) (earlier id user_id : Text)
    (purpose : CredentialTokenPurpose) (hash : Text) (by : Option Text) (now soon at : ℕ)
    → fresh earlier ≡ false
    → fresh id ≡ true
    → IsLinkOf user_id purpose earlier ts
    → LinkSteps fresh
        (invalidate_earlier user_id purpose now ts)
        (between (invalidate_earlier user_id purpose now ts))
    → IsNew id (between (invalidate_earlier user_id purpose now ts))
    → soon < now + ttl_for purpose
    → LinkSteps fresh (issue_credential_token ts between id user_id purpose hash by now) later
    → ((consume_credential_token
          (issue_credential_token ts between id user_id purpose hash by now)
          id
          soon).0
        ≡ true)
      × ((consume_credential_token later earlier at).0 ≡ false)
unfolding issue_credential_token create_credential_token consume_credential_token
issue_supersedes fresh ts later between earlier id user_id purpose hash by now soon at f g links
      meanwhile is_new in_time steps =
    let mid = between (invalidate_earlier user_id purpose now ts) in
    let spent = superseded-IsSpent user_id purpose earlier now ts links in
    let spent_mid = steps-IsSpent earlier 0 f meanwhile spent in
    let spent_new =
      created-IsSpent fresh earlier 0 id user_id purpose hash by now mid f g spent_mid in
    let spent_later = steps-IsSpent earlier 0 f steps spent_new in
    let usable : is_consumable id soon (new_token id user_id purpose hash by now) ≡ true =
      rw (text_eq_refl id) (ground (arith, in_time)) in
    let alone : keep (is_consumable id soon) (mid ++ new_token id user_id purpose hash by now ∷ [])
        ≡ new_token id user_id purpose hash by now ∷ [] =
      keep-append_new id soon mid _ is_new ∙ rw usable refl in
    (rw alone refl, rw (spent_none earlier 0 at later (omega arith) spent_later) refl)
