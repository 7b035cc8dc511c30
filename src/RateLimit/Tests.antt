-- ===== src/RateLimit/Tests.antt =====
-- apps/web/src/lib/rate-limit.ts on concrete requests, and the theorem applied to them.
use validateur_facturx.Common.{
  ℕ, ◌*◌, ◌+◌, ◌-◌, ◌≤◌, ◌≡◌, refl, arith, true, false, [], ◌∷◌, List, Option, none, some,
  if◌then◌else◌,
}
use validateur_facturx.Common.Text.{Text, codes, text_eq, trim}
use validateur_facturx.RateLimit.{
  sweep, evict, held, spend, check_rate_limit, validation_limit, signup_limit, reset_rate_limits,
  client_key_from_headers, header, or_else, before_comma,
}
use validateur_facturx.RateLimit.Burst.{Request, IsOrdered, allowed_count, allowed_count-bound}

abbrev request_at : ℕ → Request
request_at now = record { key = codes "a"; now_ms = now }

abbrev some_requests : List Request
some_requests =
    request_at 0
    ∷ request_at 0
    ∷ request_at 0
    ∷ request_at 0
    ∷ request_at 0
    ∷ request_at 0
    ∷ request_at 1000
    ∷ request_at 20000
    ∷ request_at 20000
    ∷ []

-- Six in a burst, and one more after twenty seconds.
seven_allowed :
    allowed_count 20000 validation_limit (codes "a") some_requests (reset_rate_limits 0) ≡ 7
unfolding allowed_count check_rate_limit spend held sweep evict reset_rate_limits
seven_allowed = refl

six_signups : allowed_count 120000 signup_limit (codes "a") some_requests (reset_rate_limits 0) ≡ 6
unfolding allowed_count check_rate_limit spend held sweep evict reset_rate_limits
six_signups = refl

allowed_count-bound_example :
    allowed_count 20000 validation_limit (codes "a") some_requests (reset_rate_limits 0) * 20000
    ≤ held validation_limit 0 none + (20000 - 0) * 1
unfolding IsOrdered reset_rate_limits
allowed_count-bound_example =
    allowed_count-bound 20000 validation_limit (codes "a") 0 20000 some_requests
      (reset_rate_limits 0) (ground arith)

abbrev forwarded : Text → Option Text
forwarded name =
    if text_eq name (codes "x-forwarded-for") then some (codes " 1.2.3.4, 5.6.7.8") else none

first_forwarded : client_key_from_headers true forwarded ≡ codes "1.2.3.4"
unfolding client_key_from_headers header or_else before_comma trim
first_forwarded = refl

untrusted : client_key_from_headers false forwarded ≡ codes "unknown"
unfolding client_key_from_headers
untrusted = refl
