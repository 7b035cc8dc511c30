-- ===== src/Profiles.antt =====
-- packages/facturx/src/profiles.ts: the Factur-X profiles and the URNs that declare them.
mod Tests
use validateur_facturx.Common.{
  ℕ, ◌≡◌, ◌≢◌, ◌↔◌, sym, refl, ap, arith, Bool, true, false, leb, if◌then◌else◌, List, [], ◌∷◌, map,
  Option, none, some, ◌+◌, ◌&&◌, not,
}
use validateur_facturx.Common.Text.{Text, codes, text_eq, text_eq_iff, trim, to_lower}

pub data FacturxProfile : Type 0 where
  minimum basic_wl basic en_16931 extended : FacturxProfile

unfoldable pub profile_urn : FacturxProfile → Text
profile_urn minimum = codes "urn:factur-x.eu:1p0:minimum"
profile_urn basic_wl = codes "urn:factur-x.eu:1p0:basicwl"
profile_urn basic = codes "urn:cen.eu:en16931:2017#compliant#urn:factur-x.eu:1p0:basic"
profile_urn en_16931 = codes "urn:cen.eu:en16931:2017"
profile_urn extended = codes "urn:cen.eu:en16931:2017#conformant#urn:factur-x.eu:1p0:extended"

-- The keys of the record, in order.
abbrev pub all_profiles : List FacturxProfile
all_profiles = minimum ∷ basic_wl ∷ basic ∷ en_16931 ∷ extended ∷ []

-- A lookup in the reverse map; the URNs are its keys, in lower case.
unfoldable pub urn_to_profile : Text → List FacturxProfile → Option FacturxProfile
unfolding profile_urn
urn_to_profile urn [] = none
urn_to_profile urn (p ∷ ps) =
    if text_eq (map to_lower (profile_urn p)) urn then some p else urn_to_profile urn ps

unfoldable pub profile_from_urn : Option Text → Option FacturxProfile
profile_from_urn none = none
profile_from_urn (some []) = none
profile_from_urn (some (c ∷ s)) = urn_to_profile (map to_lower (trim (c ∷ s))) all_profiles

unfoldable pub profile_rank : FacturxProfile → ℕ
profile_rank minimum = 0
profile_rank basic_wl = 1
profile_rank basic = 2
profile_rank en_16931 = 3
profile_rank extended = 4

unfoldable pub profile_at_least : FacturxProfile → FacturxProfile → Bool
unfolding profile_rank
profile_at_least profile least = leb (profile_rank least) (profile_rank profile)

abbrev pub profile_can_express_prepaid_amount : Option FacturxProfile → Bool
profile_can_express_prepaid_amount (some minimum) = false
profile_can_express_prepaid_amount _ = true

abbrev pub profile_carries_lines : Option FacturxProfile → Bool
profile_carries_lines (some minimum) = false
profile_carries_lines (some basic_wl) = false
profile_carries_lines _ = true

urn_to_profile_sound :
    (urn : Text) (ps : List FacturxProfile) (p : FacturxProfile)
    → urn_to_profile urn ps ≡ some p
    → urn ≡ map to_lower (profile_urn p)
unfolding urn_to_profile
urn_to_profile_sound urn [] p h = cc
urn_to_profile_sound urn (q ∷ ps) p h =
    ground (arith, text_eq_iff (map to_lower (profile_urn q)) urn, urn_to_profile_sound urn ps p)

urn_to_profile_own :
    (p : FacturxProfile) → urn_to_profile (map to_lower (profile_urn p)) all_profiles ≡ some p
unfolding urn_to_profile
urn_to_profile_own minimum = refl
urn_to_profile_own basic_wl = refl
urn_to_profile_own basic = refl
urn_to_profile_own en_16931 = refl
urn_to_profile_own extended = refl

profile_urn-ne-nil : (p : FacturxProfile) → map to_lower (profile_urn p) ≢ []
unfolding profile_urn
profile_urn-ne-nil minimum h = cc
profile_urn-ne-nil basic_wl h = cc
profile_urn-ne-nil basic h = cc
profile_urn-ne-nil en_16931 h = cc
profile_urn-ne-nil extended h = cc

-- A URN declares a profile exactly when, trimmed and in lower case, it is that profile's own URN: no
-- prefix and no other profile's URN is mistaken for it.
pub profile_from_urn_iff :
    (urn : Text) (p : FacturxProfile)
    → (profile_from_urn (some urn) ≡ some p)
      ↔ (map to_lower (trim urn) ≡ map to_lower (profile_urn p))
unfolding profile_from_urn
profile_from_urn_iff [] p = (λ h. cc, λ h. absurd (profile_urn-ne-nil p (sym (unfold trim in h))))
profile_from_urn_iff (c ∷ s) p = (
  urn_to_profile_sound (map to_lower (trim (c ∷ s))) all_profiles p,
  λ h. rw h (urn_to_profile_own p),
)
