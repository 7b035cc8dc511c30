-- ===== src/RateLimit/Burst.antt =====
-- apps/web/src/lib/rate-limit.ts: how many requests of a client are allowed in a period.
use native.Mathlib.Nat.{mul-le-mul_right}
use validateur_facturx.Common.{
  ℕ, suc, ◌+◌, ◌-◌, ◌*◌, ◌≤◌, ◌≡◌, refl, sym, ap, arith, true, List, [], ◌∷◌, Option, none, some,
  ltb, leb, if◌then◌else◌, Bool-cases, inl, inr,
}
use validateur_facturx.Common.Text.{Text, text_eq, text_eq_iff}
use validateur_facturx.RateLimit.{
  RateLimitConfig, RateLimitResult, Bucket, Limiter, is_full, evict, sweep, smaller, held, spend,
  check_rate_limit,
}

pub record Request : Type 0 where
  pub key : Text
  pub now_ms : ℕ

-- How many of the requests are allowed and are of the client.
unfoldable pub allowed_count : ℕ → RateLimitConfig → Text → List Request → Limiter → ℕ
allowed_count token config client [] limiter = 0
allowed_count token config client (request ∷ later) limiter =
    let (result, after) = check_rate_limit token config request.key request.now_ms limiter in
    let rest = allowed_count token config client later after in
    if result.allowed then (if text_eq request.key client then suc rest else rest) else rest

-- The requests come in the order of their times, from `start` to `end`.
unfoldable pub IsOrdered : ℕ → ℕ → List Request → Type 0
IsOrdered start end [] = start ≤ end
IsOrdered start end (request ∷ later) =
    (start ≤ request.now_ms) × IsOrdered request.now_ms end later

times_le : (a b r : ℕ) → a ≤ b → a * r ≤ b * r
times_le a b r h = mul-le-mul_right r h

times_add : (a b r : ℕ) → (a + b) * r ≡ a * r + b * r
times_add a b r = omega arith

smaller_eq : (a b : ℕ) → leb a b ≡ true → smaller a b ≡ a
smaller_eq a b h = ground arith

times_later : (a b c r : ℕ) → a ≤ b + c → a * r ≤ b * r + c * r
times_later a b c r h = rw (sym (times_add b c r)) (times_le a (b + c) r h)

held-later-some :
    (cap tokens last now later r : ℕ)
    → now ≤ later
    → smaller cap (tokens + (later - last) * r)
      ≤ smaller cap (tokens + (now - last) * r) + (later - now) * r
held-later-some cap tokens last now later r h =
    let grow = times_later (later - last) (now - last) (later - now) r (ground arith) in
    ground arith

evict-held-full :
    (cap tokens last now r : ℕ)
    → leb (cap + last * r) (tokens + now * r) ≡ true
    → cap ≡ smaller cap (tokens + (now - last) * r)
evict-held-full cap tokens last now r h =
    let grow = times_later now (now - last) last r (ground arith) in ground arith

evict-held :
    (config : RateLimitConfig) (now : ℕ) (b : Option Bucket)
    → held config now (evict config now b) ≡ held config now b
unfolding evict held
evict-held config now none = refl
evict-held config now (some b) = elim (Bool-cases (is_full config now b)) [
  | inr e ↦ rw e refl
  | inl e ↦ rw e (evict-held-full config.capacity b.tokens b.last_refill_ms now config.rate e)
]

sweep-held :
    (config : RateLimitConfig) (now : ℕ) (limiter : Limiter) (client : Text)
    → held config now ((sweep config now limiter).buckets client)
      ≡ held config now (limiter.buckets client)
unfolding sweep
sweep-held config now limiter client =
    elim (Bool-cases (ltb now (limiter.last_sweep_ms + 600000))) [
      | inl e ↦ rw e refl
      | inr e ↦ rw e (evict-held config now (limiter.buckets client))
    ]

-- Time passes.
held-later :
    (config : RateLimitConfig) (now later : ℕ) (b : Option Bucket)
    → now ≤ later
    → held config later b ≤ held config now b + (later - now) * config.rate
unfolding held
held-later config now later none h = omega arith
held-later config now later (some b) h =
    held-later-some config.capacity b.tokens b.last_refill_ms now later config.rate h

-- The units that a request takes from the client's bucket.
unfoldable charge : ℕ → Text → Text → RateLimitResult → ℕ
charge token key client result =
    if result.allowed then (if text_eq key client then token else 0) else 0

held-now :
    (config : RateLimitConfig) (now tokens : ℕ)
    → held config now (some (record { tokens = tokens; last_refill_ms = now })) ≤ tokens
unfolding held
held-now config now tokens = ground arith

same-held :
    (config : RateLimitConfig) (now : ℕ) (limiter : Limiter) (key client : Text)
    → text_eq key client ≡ true
    → held config now (limiter.buckets key) ≡ held config now (limiter.buckets client)
same-held config now limiter key client e =
    ap (λ name. held config now (limiter.buckets name)) ((text_eq_iff key client).0 e)

spend-pays :
    (token : ℕ) (config : RateLimitConfig) (key : Text) (now : ℕ) (limiter : Limiter)
    (client : Text)
    → let (result, after) =
        spend token config key now (held config now (limiter.buckets key)) limiter in
      held config now (after.buckets client) + charge token key client result
      ≤ held config now (limiter.buckets client)
unfolding spend charge
spend-pays token config key now limiter client =
    elim (Bool-cases (ltb (held config now (limiter.buckets key)) token)) [
      | inl few ↦ elim (Bool-cases (text_eq key client)) [
        | inl e ↦
            rw (few, e)
              (omega (
                arith,
                same-held config now limiter key client e,
                held-now config now (held config now (limiter.buckets key)),
              ))
        | inr e ↦ rw (few, e) (omega arith)
      ]
      | inr enough ↦ elim (Bool-cases (text_eq key client)) [
        | inl e ↦
            rw (enough, e)
              (ground (
                arith,
                same-held config now limiter key client e,
                held-now config now (held config now (limiter.buckets key) - token),
              ))
        | inr e ↦ rw (enough, e) (omega arith)
      ]
    ]

check-pays :
    (token : ℕ) (config : RateLimitConfig) (key : Text) (now : ℕ) (limiter : Limiter)
    (client : Text)
    → let (result, after) = check_rate_limit token config key now limiter in
      held config now (after.buckets client) + charge token key client result
      ≤ held config now (limiter.buckets client)
unfolding check_rate_limit
check-pays token config key now limiter client =
    let paid = spend-pays token config key now (sweep config now limiter) client in
    rw (sym (sweep-held config now limiter client)) paid

IsOrdered-le :
    (start end : ℕ) (requests : List Request) → IsOrdered start end requests → start ≤ end
unfolding IsOrdered
IsOrdered-le start end [] h = h
IsOrdered-le start end (request ∷ later) (h, ordered) =
    let more = IsOrdered-le request.now_ms end later ordered in omega arith

counted :
    (token count : ℕ) (key client : Text) (result : RateLimitResult)
    → (if result.allowed then (if text_eq key client then suc count else count) else count) * token
      ≡ count * token + charge token key client result
unfolding charge
counted token count key client result = elim (Bool-cases result.allowed) [
  | inr e ↦ rw e (omega arith)
  | inl e ↦ elim (Bool-cases (text_eq key client)) [
    | inl same ↦ rw (e, same) (omega arith)
    | inr other ↦ rw (e, other) (omega arith)
  ]
]

-- In requests that come in the order of their times, all of them under one limit, the tokens
-- that a client is allowed are at most what it holds at the start and what the rate adds until the end, whichever the other
-- clients' requests are and whenever the buckets are swept.
pub allowed_count-bound :
    (token : ℕ) (config : RateLimitConfig) (client : Text) (start end : ℕ) (requests : List Request)
    (limiter : Limiter)
    → IsOrdered start end requests
    → allowed_count token config client requests limiter * token
      ≤ held config start (limiter.buckets client) + (end - start) * config.rate
unfolding allowed_count IsOrdered
allowed_count-bound token config client start end [] limiter h = omega arith
allowed_count-bound token config client start end (request ∷ later) limiter (h, ordered) =
    let (result, after) = check_rate_limit token config request.key request.now_ms limiter in
    let rest = allowed_count token config client later after in
    let paid = check-pays token config request.key request.now_ms limiter client in
    let ih = allowed_count-bound token config client request.now_ms end later after ordered in
    let grown = held-later config start request.now_ms (limiter.buckets client) h in
    let le = IsOrdered-le request.now_ms end later ordered in
    let split = times_add (request.now_ms - start) (end - request.now_ms) config.rate in
    let whole =
      times_le ((request.now_ms - start) + (end - request.now_ms)) (end - start) config.rate
        (omega arith) in
    rw (counted token rest request.key client result) (omega arith)
