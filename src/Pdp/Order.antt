-- ===== src/Pdp/Order.antt =====
-- apps/api/src/pdp/lifecycle.ts: statuses that arrive in any order lead to the same state.
use validateur_facturx.Common.{
  ℕ, ◌≡◌, refl, sym, ◌∙◌, ap, ◌↔◌, ◌<◌, ◌≤◌, arith, Bool, true, false, List, [], ◌∷◌, Option, none,
  some, leb, if◌then◌else◌, find, any, all, ltb, ltb→lt, max, Bool-cases, inl, inr, Option-cases,
  get_elem?,
}
use validateur_facturx.Common.Text.{Text}
use validateur_facturx.Pdp.Lifecycle.{
  InvoiceState, draft, validated, queued, transmitted, delivered, rejected, archived,
  LifecycleDefinition, lifecycle_definitions, has_code, is_lifecycle_code, definition_of,
  implied_state, state_rank, advance_to, advance_state, apply_code,
}
use mathlib.Core.Logic.{∥∥₁_elim}
use mathlib.Core.Path.{subst}
use mathlib.Core.List.{Perm, Permᴰ}

any-find :
    (p : LifecycleDefinition → Bool) (ds : List LifecycleDefinition)
    → any p ds ≡ false
    → find p ds ≡ none
any-find p [] h = refl
any-find p (d ∷ ds) h = ground (arith, any-find p ds)

-- A code that is not in the vocabulary implies no state.
pub unknown_implies_none :
    (code : Text) → is_lifecycle_code code ≡ false → implied_state code ≡ none
unfolding is_lifecycle_code implied_state definition_of
unknown_implies_none code h = rw (any-find (has_code code) lifecycle_definitions h) refl

find-all :
    (p q : LifecycleDefinition → Bool) (ds : List LifecycleDefinition) (d : LifecycleDefinition)
    → all q ds ≡ true
    → find p ds ≡ some d
    → q d ≡ true
find-all p q [] d hq h = cc
find-all p q (x ∷ xs) d hq h = ground (arith, find-all p q xs d)

-- How far a state that may be absent reaches.
pub rank_of : Option InvoiceState → ℕ
unfolding state_rank
rank_of none = 0
rank_of (some s) = state_rank s

is_reported : LifecycleDefinition → Bool
unfolding rank_of
is_reported d = ltb (rank_of d.state) 6

-- No status of the vocabulary implies `ARCHIVED`.
implied_rank : (code : Text) → rank_of (implied_state code) < 6
unfolding implied_state definition_of lifecycle_definitions is_reported rank_of state_rank
implied_rank code = elim (Option-cases (definition_of code)) [
  | inl e ↦ rw e (omega arith)
  | inr (d, e) ↦
      rw e (ltb→lt _ _ (find-all (has_code code) is_reported lifecycle_definitions d refl e))
]

advance_to_lem :
    (s t : InvoiceState)
    → state_rank t < 6
    → advance_to s t ≡ (if leb (state_rank t) (state_rank s) then none else some t)
unfolding advance_to state_rank
advance_to_lem draft t h = refl
advance_to_lem validated t h = refl
advance_to_lem queued t h = refl
advance_to_lem transmitted t h = refl
advance_to_lem delivered t h = refl
advance_to_lem rejected t h = refl
advance_to_lem archived t h = ground arith

-- An unknown code, and a code that implies no state, change nothing; another one raises the state's
-- rank to the rank that it implies, when it is lower.
pub apply_code_rank :
    (s : InvoiceState) (code : Text)
    → state_rank (apply_code s code) ≡ max (state_rank s) (rank_of (implied_state code))
unfolding apply_code advance_state rank_of is_lifecycle_code implied_state
apply_code_rank s code =
    let low = implied_rank code in
    elim (Bool-cases (is_lifecycle_code code)) [
      | inr e ↦ rw (e, unknown_implies_none code e) (omega arith)
      | inl e ↦ elim (Option-cases (implied_state code)) [
        | inl n ↦ rw (e, n) (omega arith)
        | inr (t, i) ↦
            let t_low : state_rank t < 6 = subst (λ o. rank_of o < 6) i low in
            rw (e, i, advance_to_lem s t t_low) (ground arith)
      ]
    ]

-- The states that a list of statuses leads to, and the highest rank that one of them implies.
abbrev pub follow : InvoiceState → List Text → InvoiceState
follow s [] = s
follow s (code ∷ rest) = follow (apply_code s code) rest

abbrev pub furthest : List Text → ℕ
furthest [] = 0
furthest (code ∷ rest) = max (rank_of (implied_state code)) (furthest rest)

-- Whatever the order in which the statuses arrive, and however often, the state's rank is the highest
-- of its first rank and of those that the statuses imply.
pub follow_rank :
    (s : InvoiceState) (statuses : List Text)
    → state_rank (follow s statuses) ≡ max (state_rank s) (furthest statuses)
follow_rank s [] = omega arith
follow_rank s (code ∷ rest) =
    omega (arith, follow_rank (apply_code s code) rest, apply_code_rank s code)

all_states : List InvoiceState
all_states = draft ∷ validated ∷ queued ∷ transmitted ∷ delivered ∷ rejected ∷ archived ∷ []

state_at_rank : (s : InvoiceState) → get_elem? all_states (state_rank s) ≡ some s
unfolding all_states state_rank
state_at_rank draft = refl
state_at_rank validated = refl
state_at_rank queued = refl
state_at_rank transmitted = refl
state_at_rank delivered = refl
state_at_rank rejected = refl
state_at_rank archived = refl

pub state_rank_injective : (s t : InvoiceState) → state_rank s ≡ state_rank t → s ≡ t
state_rank_injective s t h =
    let same : some s ≡ some t =
      sym (state_at_rank s) ∙ ap (get_elem? all_states) h ∙ state_at_rank t in
    cc

ranks_set : IsSet ℕ
ranks_set = hlevel

furthest_permᴰ : {xs ys : List Text} → Permᴰ xs ys → furthest xs ≡ furthest ys
furthest_permᴰ Permᴰ.nil = refl
furthest_permᴰ (Permᴰ.cons e p) = rw e (omega (arith, furthest_permᴰ p))
furthest_permᴰ (Permᴰ.swap e f) = rw (e, f) (omega arith)
furthest_permᴰ (Permᴰ.trans p q) = furthest_permᴰ p ∙ furthest_permᴰ q

-- Two deliveries of the same statuses, in any two orders, lead from the same state to the same state.
pub follow-perm : (s : InvoiceState) (xs ys : List Text) → Perm xs ys → follow s xs ≡ follow s ys
follow-perm s xs ys p = state_rank_injective _ _ (
    follow_rank s xs
    ∙ ap (max (state_rank s)) (∥∥₁_elim p (ranks_set (furthest xs) (furthest ys)) furthest_permᴰ)
    ∙ sym (follow_rank s ys))

furthest_lt : (statuses : List Text) → furthest statuses < 6
furthest_lt [] = omega arith
furthest_lt (code ∷ rest) = omega (arith, furthest_lt rest, implied_rank code)

-- Statuses never archive an invoice and never move it back, and an archived invoice keeps its state.
pub follow_monotone :
    (s : InvoiceState) (statuses : List Text)
    → (state_rank s ≤ state_rank (follow s statuses))
      × (follow s statuses ≡ archived ↔ s ≡ archived)
unfolding state_rank
follow_monotone s statuses =
    let rank = follow_rank s statuses in
    let low = furthest_lt statuses in
    (
      omega arith,
      (
        (λ e. state_rank_injective s archived (omega (arith, ap state_rank e))),
        (λ e. state_rank_injective _ archived (omega (arith, ap state_rank e))),
      ),
    )
