-- ===== src/RateLimit.antt =====
-- apps/web/src/lib/rate-limit.ts: a token bucket for every client. The fractions of a token are exact: an
-- amount counts the units of which `token` make one token, and a bucket gains `rate` units a
-- millisecond. The map of buckets is a function from keys.
mod Tests
pub mod Burst
use validateur_facturx.Common.{
  List, [], ◌∷◌, ◌==◌, ℕ, ◌+◌, ◌-◌, ◌*◌, ◌/◌, Bool, true, false, Option, none, some, ltb, leb,
  if◌then◌else◌,
}
use validateur_facturx.Common.Text.{Text, codes, text_eq, trim}

pub record RateLimitConfig : Type 0 where
  pub capacity : ℕ
  pub rate : ℕ

pub record RateLimitResult : Type 0 where
  pub allowed : Bool
  pub remaining : ℕ
  pub retry_after_seconds : ℕ

pub record Bucket : Type 0 where
  pub tokens : ℕ
  pub last_refill_ms : ℕ

pub record Limiter : Type 0 where
  pub buckets : Text → Option Bucket
  pub last_sweep_ms : ℕ

-- With 20000 units to a token: one token every 20 seconds.
abbrev pub validation_limit : RateLimitConfig
validation_limit = record { capacity = 6 * 20000; rate = 1 }

-- With 120000 units to a token: one token every 120 seconds.
abbrev pub signup_limit : RateLimitConfig
signup_limit = record { capacity = 6 * 120000; rate = 1 }

abbrev pub sweep_interval_ms : ℕ
sweep_interval_ms = 10 * 60 * 1000

-- `refilled >= capacity`, without the subtraction of the times
abbrev pub is_full : RateLimitConfig → ℕ → Bucket → Bool
is_full config now b =
    leb (config.capacity + b.last_refill_ms * config.rate) (b.tokens + now * config.rate)

unfoldable pub evict : RateLimitConfig → ℕ → Option Bucket → Option Bucket
evict config now none = none
evict config now (some b) = if is_full config now b then none else some b

unfoldable pub sweep : RateLimitConfig → ℕ → Limiter → Limiter
sweep config now limiter =
    if ltb now (limiter.last_sweep_ms + sweep_interval_ms)
    then limiter
    else record { buckets = λ key. evict config now (limiter.buckets key); last_sweep_ms = now }

abbrev pub smaller : ℕ → ℕ → ℕ
smaller a b = if leb a b then a else b

abbrev pub larger : ℕ → ℕ → ℕ
larger a b = if leb a b then b else a

-- What a bucket holds at a time; a client without one has a full bucket.
unfoldable pub held : RateLimitConfig → ℕ → Option Bucket → ℕ
held config now none = config.capacity
held config now (some b) =
    smaller config.capacity (b.tokens + (now - b.last_refill_ms) * config.rate)

abbrev pub set_bucket : Text → Bucket → Limiter → Limiter
set_bucket key b limiter = record limiter {
  buckets = λ other. if text_eq key other then some b else limiter.buckets other;
}

-- The rest of the check, for the tokens of the refilled bucket.
unfoldable pub spend : ℕ → RateLimitConfig → Text → ℕ → ℕ → Limiter → RateLimitResult × Limiter
spend token config key now tokens limiter =
    if ltb tokens token
    then (
      record {
        allowed = false;
        remaining = 0;
        retry_after_seconds =
            larger 1 ((token - tokens + (config.rate * 1000 - 1)) / (config.rate * 1000));
      },
      set_bucket key (record { tokens = tokens; last_refill_ms = now }) limiter,
    )
    else (
      record { allowed = true; remaining = (tokens - token) / token; retry_after_seconds = 0 },
      set_bucket key (record { tokens = tokens - token; last_refill_ms = now }) limiter,
    )

unfoldable pub check_rate_limit :
    ℕ → RateLimitConfig → Text → ℕ → Limiter → RateLimitResult × Limiter
check_rate_limit token config key now limiter =
    let swept = sweep config now limiter in
    spend token config key now (held config now (swept.buckets key)) swept

unfoldable pub before_comma : Text → Text
before_comma [] = []
before_comma (c ∷ s) = let rest = before_comma s in if c == b',' then [] else c ∷ rest

-- An empty header counts as a missing one.
unfoldable pub header : (Text → Option Text) → Text → Text
header headers name = header_text (headers name)
  where
    header_text : Option Text → Text
    header_text none = []
    header_text (some s) = s

unfoldable pub or_else : Text → Text → Text
or_else [] other = other
or_else (c ∷ s) other = c ∷ s

unfoldable pub client_key_from_headers : Bool → (Text → Option Text) → Text
client_key_from_headers false headers = codes "unknown"
client_key_from_headers true headers =
    or_else (trim (before_comma (header headers (codes "x-forwarded-for"))))
      (real_ip_key (header headers (codes "x-real-ip")))
  where
    real_ip_key : Text → Text
    real_ip_key [] = codes "unknown"
    real_ip_key (c ∷ s) = trim (c ∷ s)

unfoldable pub reset_rate_limits : ℕ → Limiter
reset_rate_limits now = record { buckets = λ key. none; last_sweep_ms = now }
