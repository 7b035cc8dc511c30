-- ===== src/Pdp/Keys.antt =====
-- apps/api/src/pdp: a document has one transmission, whatever the writers do.
use validateur_facturx.Common.{
  ℕ, ◌≡◌, refl, sym, ◌∙◌, ap, arith, false, List, [], ◌∷◌, ◌++◌, map, Option, none, some, ◌⊎◌, inl,
  inr, Bool-cases, Option-cases, if◌then◌else◌, ok,
}
use mathlib.Core.Path.{subst}
use validateur_facturx.Common.Text.{Text, includes, text_eq, text_eq_sym}
use validateur_facturx.Pdp.Store.{
  Transmission, Database, update_transmission, find_key, has_status, pending, sent, acknowledged,
  failed, TransmissionState,
}
use validateur_facturx.Pdp.Queue.{Prepared, fresh, existing, create, claim, stamp_rows, new_row}
use validateur_facturx.Pdp.Outcome.{
  record_sent, record_failure, retry, retry_returned, failed_row, sent_row, reset_row,
}
use validateur_facturx.Pdp.Sync.{
  apply_status, acknowledges, refuses, acknowledge_row, refuse_row, refuse_in, acknowledged_rows,
  refused_rows, status_of, StatusUpdate,
}
use validateur_facturx.Pdp.Steps.{
  Step, Steps, enqueues, claims, sends, fails, retries, polls, done, then_step,
}

-- A row's key and identifier, which no write changes.
pub record Ident : Type 0 where
  pub key : Text
  pub id : Text

abbrev pub ident : Transmission → Ident
ident t = record { key = t.idempotency_key; id = t.id }

abbrev pub idents : Database → List Ident
idents db = map ident db.transmissions

abbrev pub lookup : Text → List Ident → Option Text
lookup key [] = none
lookup key (i ∷ is) = if text_eq i.key key then some i.id else lookup key is

update-idents :
    (id : Text) (f : Transmission → Transmission) (ts : List Transmission)
    → ((t : Transmission) → ident (f t) ≡ ident t)
    → map ident (update_transmission id f ts) ≡ map ident ts
update-idents id f [] h = refl
update-idents id f (t ∷ ts) h = elim (Bool-cases (text_eq t.id id)) [
  | inl e ↦ rw e (ap (λ i. i ∷ map ident ts) (h t))
  | inr e ↦ rw e (ap (λ is. ident t ∷ is) (update-idents id f ts h))
]

stamp_rows-idents :
    (ids : List Text) (worker : Text) (now : ℕ) (ts : List Transmission)
    → map ident (stamp_rows ids worker now ts) ≡ map ident ts
stamp_rows-idents ids worker now [] = refl
stamp_rows-idents ids worker now (t ∷ ts) = elim (Bool-cases (includes ids t.id)) [
  | inl e ↦ rw e (ap (λ is. ident t ∷ is) (stamp_rows-idents ids worker now ts))
  | inr e ↦ rw e (ap (λ is. ident t ∷ is) (stamp_rows-idents ids worker now ts))
]

pub map-append-ident :
    (ts us : List Transmission) → map ident (ts ++ us) ≡ map ident ts ++ map ident us
map-append-ident [] us = refl
map-append-ident (t ∷ ts) us = ap (λ is. ident t ∷ is) (map-append-ident ts us)

pub find_key-lookup :
    (key : Text) (ts : List Transmission)
    → (find_key key ts ≡ none → lookup key (map ident ts) ≡ none)
      × ((t : Transmission) → find_key key ts ≡ some t → lookup key (map ident ts) ≡ some t.id)
find_key-lookup key [] = ((λ _. refl), λ t h. cc)
find_key-lookup key (t ∷ ts) = elim (Bool-cases (text_eq t.idempotency_key key)) [
  | inl e ↦ rw e ((λ h. cc), λ u h. cc)
  | inr e ↦ rw e (find_key-lookup key ts)
]

-- How a step changes the keys: not at all, or by one that was free.
pub Grows : List Ident → List Ident → Type 0
Grows old new = (new ≡ old) ⊎ ((i : Ident) × (new ≡ old ++ i ∷ []) × (lookup i.key old ≡ none))

create-Grows :
    (db : Database) (p : Prepared) (id tenant_id : Text) (user_id : Option Text) (now : ℕ)
    → Grows (idents db) (idents (create db p id tenant_id user_id now).1)
unfolding create Grows
create-Grows db (existing row key) id tenant_id user_id now = inl refl
create-Grows db (fresh i c key) id tenant_id user_id now =
    elim (Option-cases (find_key key db.transmissions)) [
      | inl e ↦
          rw (create, e)
            (inr (
              ident (new_row id i c key now),
              map-append-ident db.transmissions (new_row id i c key now ∷ []),
              (find_key-lookup key db.transmissions).0 e,
            ))
      | inr (w, e) ↦ rw (create, e) (inl refl)
    ]

sent-idents :
    (id external_id : Text) (now : ℕ) (ts : List Transmission)
    → map ident (update_transmission id (sent_row external_id now) ts) ≡ map ident ts
unfolding sent_row
sent-idents id external_id now ts = update-idents id (sent_row external_id now) ts λ t. refl

retry-idents :
    (db next : Database) (tenant_id id : Text) (now : ℕ)
    → retry db tenant_id id now ≡ ok next
    → idents next ≡ idents db
unfolding retry
retry-idents db next tenant_id id now h =
    let (row, _, e) = retry_returned db now _ next h in
    ap idents e ∙ update-idents row.id (reset_row now) db.transmissions λ t. refl

refuse_in-ident :
    (code : Text) (s : TransmissionState) (t : Transmission) → ident (refuse_in code s t) ≡ ident t
refuse_in-ident code pending t = refl
refuse_in-ident code sent t = refl
refuse_in-ident code acknowledged t = refl
refuse_in-ident code failed t = refl

refused-idents :
    (row : Transmission) (u : StatusUpdate) (ts : List Transmission)
    → map ident (refused_rows row u ts) ≡ map ident ts
unfolding refused_rows
refused-idents row u ts = elim (Bool-cases (refuses u.code)) [
  | inl e ↦ rw e (update-idents row.id (refuse_row u.code) ts λ t. refuse_in-ident u.code t.state t)
  | inr e ↦ rw e refl
]

acknowledged-idents :
    (row : Transmission) (u : StatusUpdate) (ts : List Transmission)
    → map ident (acknowledged_rows row u ts) ≡ map ident ts
unfolding acknowledged_rows
acknowledged-idents row u ts = elim (Bool-cases (acknowledges u.code row.state)) [
  | inl e ↦ rw e (update-idents row.id (acknowledge_row u.occurred_at) ts λ t. refl)
  | inr e ↦ rw e refl
]

-- What a step does to the keys.
pub Step-Grows : {a b : Database} → Step a b → Grows (idents a) (idents b)
unfolding Grows claim record_sent record_failure failed_row apply_status
Step-Grows (enqueues db p id tenant_id user_id now) = create-Grows db p id tenant_id user_id now
Step-Grows (claims db worker limit now locked) =
    inl (stamp_rows-idents _ worker now db.transmissions)
Step-Grows (sends db row external_id accepted_at now) =
    inl (sent-idents row.id external_id now db.transmissions)
Step-Grows (fails db row error now random) =
    inl (update-idents row.id (failed_row row error now random) db.transmissions λ t. refl)
Step-Grows (retries db next tenant_id id now h) = inl (retry-idents db next tenant_id id now h)
Step-Grows (polls db row update) =
    elim (Bool-cases (has_status (status_of row update) db.statuses)) [
      | inl e ↦ rw (apply_status, e) (inl refl)
      | inr e ↦
          rw (apply_status, e)
            (inl (
              refused-idents row update (acknowledged_rows row update db.transmissions)
              ∙ acknowledged-idents row update db.transmissions))
    ]

-- The keys of a table are all different.
unfoldable pub IsUnique : List Ident → Type 0
IsUnique [] = Unit
IsUnique (i ∷ is) = (lookup i.key is ≡ none) × IsUnique is

pub lookup-append :
    (key : Text) (is : List Ident) (i : Ident)
    → lookup key is ≡ none
    → lookup key (is ++ i ∷ []) ≡ (if text_eq i.key key then some i.id else none)
lookup-append key [] i h = refl
lookup-append key (j ∷ js) i h = ground (arith, lookup-append key js i)

lookup-append_some :
    (key : Text) (is : List Ident) (i : Ident) (id : Text)
    → lookup key is ≡ some id
    → lookup key (is ++ i ∷ []) ≡ some id
lookup-append_some key [] i id h = cc
lookup-append_some key (j ∷ js) i id h = ground (arith, lookup-append_some key js i id)

append-IsUnique :
    (is : List Ident) (i : Ident) → IsUnique is → lookup i.key is ≡ none → IsUnique (is ++ i ∷ [])
unfolding IsUnique
append-IsUnique [] i u h = (refl, tt)
append-IsUnique (j ∷ js) i (n, u) h =
    let sym_eq = text_eq_sym i.key j.key in
    let other : text_eq i.key j.key ≡ false = ground arith in
    let last = lookup-append j.key js i n in
    (last ∙ rw other refl, append-IsUnique js i u (ground arith))

Grows-IsUnique : (old new : List Ident) → Grows old new → IsUnique old → IsUnique new
unfolding Grows
Grows-IsUnique old new (inl e) u = subst IsUnique (sym e) u
Grows-IsUnique old new (inr (i, e, n)) u = subst IsUnique (sym e) (append-IsUnique old i u n)

Grows-lookup :
    (old new : List Ident) (key id : Text)
    → Grows old new
    → lookup key old ≡ some id
    → lookup key new ≡ some id
unfolding Grows
Grows-lookup old new key id (inl e) h = ap (lookup key) e ∙ h
Grows-lookup old new key id (inr (i, e, n)) h =
    ap (lookup key) e ∙ lookup-append_some key old i id h

-- Whatever steps are taken, a table whose keys are all different keeps that, and the row that has a
-- key stays the row that has it: no step removes it, gives it another key or adds a second one.
pub steps-IsUnique :
    {a b : Database}
    → Steps a b
    → IsUnique (idents a)
    → IsUnique (idents b)
      × ((key id : Text) → lookup key (idents a) ≡ some id → lookup key (idents b) ≡ some id)
steps-IsUnique (done db) u = (u, λ key id h. h)
steps-IsUnique (then_step ss s) u =
    let (unique, kept) = steps-IsUnique ss u in
    let grows = Step-Grows s in
    (Grows-IsUnique _ _ grows unique, λ key id h. Grows-lookup _ _ key id grows (kept key id h))

pub steps-lookup :
    {a b : Database} (key id : Text)
    → Steps a b
    → lookup key (idents a) ≡ some id
    → lookup key (idents b) ≡ some id
steps-lookup key id (done db) h = h
steps-lookup key id (then_step ss s) h =
    Grows-lookup _ _ key id (Step-Grows s) (steps-lookup key id ss h)
