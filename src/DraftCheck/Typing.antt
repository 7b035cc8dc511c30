-- ===== src/DraftCheck/Typing.antt =====
-- packages/facturx/src/generate/check-draft.ts: a mistyped character of an IBAN is noticed.
use validateur_facturx.Common.{
  ℕ, ◌+◌, ◌-◌, ◌*◌, ◌%◌, ◌≡◌, ◌≢◌, ◌⊎◌, inl, inr, refl, sym, ap, ◌∙◌, arith, true, false, [], ◌∷◌,
  ◌++◌, ◌||◌, ◌==◌, take, drop, Bool-cases,
}
use mathlib.Core.List.{append_assoc}
use validateur_facturx.Common.Text.{Text, is_digit, is_upper, is_space, upper_char}
use validateur_facturx.Money.Digits.{to_string_two}
use validateur_facturx.DraftCheck.Iban.{
  is_iban_char, normalise_iban, iban_digits, reduce_digits, reduce_chars, iban_remainder,
  is_valid_iban,
}

-- Two digits, or two capital letters.
abbrev pub IsSameKind : ℕ → ℕ → Type 0
IsSameKind a b =
    ((is_digit a ≡ true) × (is_digit b ≡ true)) ⊎ ((is_upper a ≡ true) × (is_upper b ≡ true))

reduce_digits-injective :
    (r r' : ℕ) (s : Text) → reduce_digits r s % 97 ≡ reduce_digits r' s % 97 → r % 97 ≡ r' % 97
unfolding reduce_digits
reduce_digits-injective r r' [] h = h
reduce_digits-injective r r' (c ∷ s) h =
    let rest =
      reduce_digits-injective ((r * 10 + (c - b'0')) % 97) ((r' * 10 + (c - b'0')) % 97) s h in
    omega arith

reduce_chars-injective :
    (r r' : ℕ) (s : Text) → reduce_chars r s % 97 ≡ reduce_chars r' s % 97 → r % 97 ≡ r' % 97
unfolding reduce_chars
reduce_chars-injective r r' [] h = h
reduce_chars-injective r r' (c ∷ s) h = reduce_digits-injective r r' (iban_digits c) (
    reduce_chars-injective (reduce_digits r (iban_digits c)) (reduce_digits r' (iban_digits c)) s h)

reduce_digits-digit :
    (r c : ℕ) → is_digit c ≡ true → reduce_digits r (iban_digits c) ≡ (r * 10 + (c - b'0')) % 97
unfolding reduce_digits iban_digits
reduce_digits-digit r c h = rw h refl

reduce_digits-letter :
    (r c : ℕ) → is_upper c ≡ true → reduce_digits r (iban_digits c) ≡ (r * 100 + (c - 55)) % 97
unfolding reduce_digits iban_digits
reduce_digits-letter r c h =
    let no : is_digit c ≡ false = ground (arith, h) in
    let two = to_string_two (c - 55) (ground (arith, h)) (ground (arith, h)) in
    rw (no, two) (ground (arith, h))

-- Two characters of one kind leave different remainders.
char_changes :
    (r a b : ℕ)
    → IsSameKind a b
    → a ≢ b
    → reduce_digits r (iban_digits a) % 97 ≢ reduce_digits r (iban_digits b) % 97
char_changes r a b (inl (da, db)) differ h =
    let ea = reduce_digits-digit r a da in
    let eb = reduce_digits-digit r b db in differ (ground (arith, da, db, ea, eb, h))
char_changes r a b (inr (ua, ub)) differ h =
    let ea = reduce_digits-letter r a ua in
    let eb = reduce_digits-letter r b ub in differ (ground (arith, ua, ub, ea, eb, h))

reduce_chars-append :
    (r : ℕ) (s t : Text) → reduce_chars r (s ++ t) ≡ reduce_chars (reduce_chars r s) t
unfolding reduce_chars
reduce_chars-append r [] t = refl
reduce_chars-append r (c ∷ s) t = reduce_chars-append (reduce_digits r (iban_digits c)) s t

reduce_chars-changes :
    (r a b : ℕ) (s t : Text)
    → IsSameKind a b
    → a ≢ b
    → reduce_chars r (s ++ a ∷ t) ≢ reduce_chars r (s ++ b ∷ t)
unfolding reduce_chars
reduce_chars-changes r a b s t kind differ h =
    let m = reduce_chars r s in
    let same = sym (reduce_chars-append r s (a ∷ t)) ∙ h ∙ reduce_chars-append r s (b ∷ t) in
    char_changes m a b kind differ (
      reduce_chars-injective (reduce_digits m (iban_digits a)) (reduce_digits m (iban_digits b)) t
        (ap (λ x. x % 97) same))

-- Where the character at the end of `p` lands once the first four characters are moved to the end.
rotated :
    (p q : Text)
    → (s : Text) × (t : Text) × ((c : ℕ) → drop 4 (p ++ c ∷ q) ++ take 4 (p ++ c ∷ q) ≡ s ++ c ∷ t)
rotated [] q = (drop 3 q, take 3 q, λ c. refl)
rotated (x ∷ []) q = (drop 2 q ++ x ∷ [], take 2 q, λ c. sym (append_assoc (drop 2 q) _ _))
rotated (x ∷ y ∷ []) q = (drop 1 q ++ x ∷ y ∷ [], take 1 q, λ c. sym (append_assoc (drop 1 q) _ _))
rotated (x ∷ y ∷ z ∷ []) q = (q ++ x ∷ y ∷ z ∷ [], [], λ c. sym (append_assoc q _ _))
rotated (x ∷ y ∷ z ∷ w ∷ p) q = (p, q ++ x ∷ y ∷ z ∷ w ∷ [], λ c. append_assoc p (c ∷ q) _)

iban_remainder-changes :
    (p q : Text) (a b : ℕ)
    → IsSameKind a b
    → a ≢ b
    → iban_remainder (p ++ a ∷ q) ≢ iban_remainder (p ++ b ∷ q)
unfolding iban_remainder
iban_remainder-changes p q a b kind differ h =
    let (s, t, at) = rotated p q in
    reduce_chars-changes 0 a b s t kind differ
      (sym (ap (reduce_chars 0) (at a)) ∙ h ∙ ap (reduce_chars 0) (at b))

normalise_iban-append :
    (s t : Text) → normalise_iban (s ++ t) ≡ normalise_iban s ++ normalise_iban t
unfolding normalise_iban
normalise_iban-append [] t = refl
normalise_iban-append (c ∷ s) t = elim (Bool-cases (is_iban_char c)) [
  | inl e ↦ rw e (
      ap (λ r. upper_char c ++ r) (normalise_iban-append s t)
      ∙ sym (append_assoc (upper_char c) (normalise_iban s) (normalise_iban t)))
  | inr e ↦ rw e (normalise_iban-append s t)
]

-- The characters of an IBAN are kept as they are.
normalise_iban-char :
    (c : ℕ) (q : Text)
    → is_digit c || is_upper c ≡ true
    → normalise_iban (c ∷ q) ≡ c ∷ normalise_iban q
unfolding normalise_iban is_space
normalise_iban-char c q h =
    let kept : is_iban_char c ≡ true = ground (arith, h) in
    let same : upper_char c ≡ c ∷ [] = ground (arith, h) in rw (kept, same) refl

is_known_kind :
    (a b : ℕ)
    → IsSameKind a b
    → (is_digit a || is_upper a ≡ true) × (is_digit b || is_upper b ≡ true)
is_known_kind a b (inl (da, db)) = (ground (arith, da), ground (arith, db))
is_known_kind a b (inr (ua, ub)) = (ground (arith, ua), ground (arith, ub))

normalise_iban-around :
    (p q : Text) (c : ℕ)
    → is_digit c || is_upper c ≡ true
    → normalise_iban (p ++ c ∷ q) ≡ normalise_iban p ++ c ∷ normalise_iban q
normalise_iban-around p q c h =
    normalise_iban-append p (c ∷ q) ∙ ap (λ r. normalise_iban p ++ r) (normalise_iban-char c q h)

-- Where an IBAN is accepted, with its spaces and dashes, the one with a digit replaced by another
-- digit, or a capital letter by another, is refused.
pub is_valid_iban-detects :
    (p q : Text) (a b : ℕ)
    → IsSameKind a b
    → a ≢ b
    → is_valid_iban (p ++ a ∷ q) ≡ true
    → is_valid_iban (p ++ b ∷ q) ≡ false
unfolding is_valid_iban
is_valid_iban-detects p q a b kind differ h =
    let (ka, kb) = is_known_kind a b kind in
    let na = normalise_iban-around p q a ka in
    let nb = normalise_iban-around p q b kb in
    let changes = iban_remainder-changes (normalise_iban p) (normalise_iban q) a b kind differ in
    let one : iban_remainder (normalise_iban (p ++ a ∷ q)) ≡ 1 = ground (arith, h) in
    elim (Bool-cases (iban_remainder (normalise_iban (p ++ b ∷ q)) == 1)) [
      | inr e ↦ ground (arith, e)
      | inl e ↦
          let other : iban_remainder (normalise_iban (p ++ b ∷ q)) ≡ 1 = ground (arith, e) in
          absurd (changes (sym (ap iban_remainder na) ∙ one ∙ sym other ∙ ap iban_remainder nb))
    ]
