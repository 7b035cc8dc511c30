-- ===== src/Cii/Detect.antt =====
-- packages/facturx/src/extract/cii.ts: `looksLikeCiiXml`, the search of the root's name in the bytes.
use validateur_facturx.Common.{
  ℕ, zero, suc, ◌+◌, ◌-◌, ◌≤◌, ◌≡◌, ◌↔◌, refl, sym, ap, ◌∙◌, arith, Bool, true, false, List, [],
  ◌∷◌, ◌++◌, ◌&&◌, ◌||◌, ◌==◌, ltb, length, length-append, if◌then◌else◌, Bool-cases, inl, inr,
}
use validateur_facturx.Common.Text.{Text, codes}

-- The bytes of « CrossIndustryInvoice »
abbrev pub cii_root_marker : Text
cii_root_marker = codes "CrossIndustryInvoice"

-- The inner loop: every byte of the needle stands at the position.
unfoldable pub matches_here : List ℕ → List ℕ → Bool
matches_here haystack [] = true
matches_here [] (n ∷ needle) = false
matches_here (b ∷ haystack) (n ∷ needle) = b == n && matches_here haystack needle

-- The outer loop, over as many positions as are left.
unfoldable pub search_bytes : ℕ → List ℕ → List ℕ → Bool
search_bytes zero haystack needle = false
search_bytes (suc left) [] needle = false
search_bytes (suc left) (b ∷ haystack) needle =
    let later = search_bytes left haystack needle in
    if matches_here (b ∷ haystack) needle then true else later

unfoldable pub contains_bytes : List ℕ → List ℕ → Bool
contains_bytes haystack needle =
    if length needle == 0 || ltb (length haystack) (length needle)
    then false
    else search_bytes (length haystack - length needle + 1) haystack needle

unfoldable pub looks_like_cii_xml : List ℕ → Bool
looks_like_cii_xml bytes = contains_bytes bytes cii_root_marker

matches_here_sound :
    (haystack needle : List ℕ)
    → matches_here haystack needle ≡ true
    → (after : List ℕ) × (haystack ≡ needle ++ after)
unfolding matches_here
matches_here_sound haystack [] h = (haystack, refl)
matches_here_sound [] (n ∷ needle) h = cc
matches_here_sound (b ∷ haystack) (n ∷ needle) h =
    let (after, rest) = matches_here_sound haystack needle (ground (arith, h)) in
    let same : b ≡ n = ground (arith, h) in (after, rw (same, rest) refl)

matches_here_complete : (needle after : List ℕ) → matches_here (needle ++ after) needle ≡ true
unfolding matches_here
matches_here_complete [] after = refl
matches_here_complete (n ∷ needle) after = ground (arith, matches_here_complete needle after)

abbrev Occurs : List ℕ → List ℕ → Type 0
Occurs haystack needle =
    (before : List ℕ) × (after : List ℕ) × (haystack ≡ before ++ (needle ++ after))

search_bytes_sound :
    (left : ℕ) (haystack needle : List ℕ)
    → search_bytes left haystack needle ≡ true
    → Occurs haystack needle
unfolding search_bytes
search_bytes_sound zero haystack needle h = cc
search_bytes_sound (suc left) [] needle h = cc
search_bytes_sound (suc left) (b ∷ haystack) needle h =
    elim (Bool-cases (matches_here (b ∷ haystack) needle)) [
      | inl e ↦ let (after, same) = matches_here_sound (b ∷ haystack) needle e in ([], after, same)
      | inr e ↦
          let tail : search_bytes (suc left) (b ∷ haystack) needle
              ≡ search_bytes left haystack needle =
            rw e refl in
          let (before, after, same) = search_bytes_sound left haystack needle (sym tail ∙ h) in
          (b ∷ before, after, ap (λ t. b ∷ t) same)
    ]

search_bytes_complete :
    (left : ℕ) (before needle after : List ℕ)
    → 1 ≤ length needle
    → length before + 1 ≤ left
    → search_bytes left (before ++ (needle ++ after)) needle ≡ true
unfolding search_bytes
search_bytes_complete zero before needle after n h = absurd (omega arith)
search_bytes_complete (suc left) [] [] after n h = absurd (omega arith)
search_bytes_complete (suc left) [] (b ∷ needle) after n h =
    rw (matches_here_complete (b ∷ needle) after) refl
search_bytes_complete (suc left) (b ∷ before) needle after n h =
    let later = search_bytes_complete left before needle after n (omega arith) in
    elim (Bool-cases (matches_here (b ∷ (before ++ (needle ++ after))) needle)) [
      | inl e ↦ rw e refl
      | inr e ↦ rw e later
    ]

-- A needle that is not empty is found exactly when it stands somewhere in the bytes: the positions that the search leaves out cannot hold it.
pub contains_bytes_iff :
    (haystack needle : List ℕ)
    → 1 ≤ length needle
    → (contains_bytes haystack needle ≡ true)
      ↔ ((before : List ℕ) × (after : List ℕ) × (haystack ≡ before ++ (needle ++ after)))
unfolding contains_bytes
contains_bytes_iff haystack needle n = (
  (λ h.
      search_bytes_sound (length haystack - length needle + 1) haystack needle (ground (arith, h))),
  λ (before, after, same).
      let size = ap length same ∙ length-append before (needle ++ after) in
      let rest = length-append needle after in
      let some_byte : (length needle == 0) ≡ false = ground arith in
      let enough : ltb (length haystack) (length needle) ≡ false = ground (arith, size, rest) in
      let found =
        search_bytes_complete (length haystack - length needle + 1) before needle after n
          (omega (arith, size, rest)) in
      rw (some_byte, enough)
        (ap (λ s. search_bytes (length haystack - length needle + 1) s needle) same ∙ found),
)
