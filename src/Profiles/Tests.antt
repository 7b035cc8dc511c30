-- ===== src/Profiles/Tests.antt =====
-- packages/facturx/src/profiles.ts at one URN.
use validateur_facturx.Common.{◌≡◌, ◌↔◌, map, some}
use validateur_facturx.Common.Text.{codes, trim, to_lower}
use validateur_facturx.Profiles.{en_16931, profile_urn, profile_from_urn, profile_from_urn_iff}

profile_from_urn_iff_example :
    (profile_from_urn (some (codes " URN:cen.eu:en16931:2017 ")) ≡ some en_16931) ↔ (
      map to_lower (trim (codes " URN:cen.eu:en16931:2017 ")) ≡ map to_lower (profile_urn en_16931))
profile_from_urn_iff_example = profile_from_urn_iff (codes " URN:cen.eu:en16931:2017 ") en_16931
