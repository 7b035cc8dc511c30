-- ===== src/Identifiers/Luhn.antt =====
-- packages/facturx/src/identifiers.ts: what the Luhn test detects.
use validateur_facturx.Common.{
  ℕ, ◌+◌, ◌-◌, ◌%◌, ◌≤◌, ◌≡◌, ◌≢◌, ◌∙◌, arith, Bool, true, false, not, [], ◌∷◌, ◌++◌,
}
use validateur_facturx.Common.Text.{Text}
use validateur_facturx.Money.Digits.{IsDigit}
use validateur_facturx.Identifiers.{luhn_value, luhn_total, passes_luhn}
use mathlib.Core.List.{reverse, reverse_aux-append, reverse_aux-eq}

luhn_total_acc :
    (total : ℕ) (double : Bool) (s : Text)
    → luhn_total total double s ≡ total + luhn_total 0 double s
unfolding luhn_total
luhn_total_acc total double [] = omega arith
luhn_total_acc total double (c ∷ s) =
    let value = luhn_value double (c - b'0') in
    let left : luhn_total total double (c ∷ s) ≡ total + value + luhn_total 0 (not double) s =
      luhn_total_acc (total + value) (not double) s in
    let right : luhn_total 0 double (c ∷ s) ≡ 0 + value + luhn_total 0 (not double) s =
      luhn_total_acc (0 + value) (not double) s in
    omega arith

luhn_total_cons :
    (double : Bool) (c : ℕ) (s : Text)
    → luhn_total 0 double (c ∷ s) ≡ luhn_value double (c - b'0') + luhn_total 0 (not double) s
unfolding luhn_total
luhn_total_cons double c s =
    luhn_total_acc (0 + luhn_value double (c - b'0')) (not double) s ∙ omega arith

-- Two digits that differ add amounts that differ modulo ten.
luhn_value_differs :
    (double : Bool) (a b : ℕ)
    → a ≤ 9
    → b ≤ 9
    → a ≢ b
    → luhn_value double a % 10 ≢ luhn_value double b % 10
unfolding luhn_value
luhn_value_differs true a b ha hb h = ground arith
luhn_value_differs false a b ha hb h = ground arith

changed_total :
    (double : Bool) (before after : Text) (a b : ℕ)
    → IsDigit a
    → IsDigit b
    → a ≢ b
    → luhn_total 0 double (before ++ a ∷ after) % 10
      ≢ luhn_total 0 double (before ++ b ∷ after) % 10
changed_total double [] after a b ha hb h e =
    let one = luhn_total_cons double a after in
    let two = luhn_total_cons double b after in
    luhn_value_differs double (a - b'0') (b - b'0') (ground arith) (ground arith)
      (λ same. h (ground arith)) (omega arith)
changed_total double (c ∷ before) after a b ha hb h e =
    let one = luhn_total_cons double c (before ++ a ∷ after) in
    let two = luhn_total_cons double c (before ++ b ∷ after) in
    changed_total (not double) before after a b ha hb h (omega arith)

reversed :
    (before after : Text) (a : ℕ)
    → reverse (before ++ a ∷ after) ≡ reverse after ++ a ∷ reverse before
reversed before after a =
    reverse_aux-append before (a ∷ after) [] ∙ reverse_aux-eq after (a ∷ reverse before)

-- A number that passes the test no longer passes it when any one of its digits is changed.
pub passes_luhn_detects :
    (before after : Text) (a b : ℕ)
    → IsDigit a
    → IsDigit b
    → a ≢ b
    → passes_luhn (before ++ a ∷ after) ≡ true
    → passes_luhn (before ++ b ∷ after) ≡ false
unfolding passes_luhn
passes_luhn_detects before after a b ha hb h p =
    let differs = changed_total false (reverse after) (reverse before) a b ha hb h in
    let one = reversed before after a in
    let two = reversed before after b in
    let passed : luhn_total 0 false (reverse after ++ a ∷ reverse before) % 10 ≡ 0 =
      ground (arith, p, one) in
    rw two (ground arith)
