-- ===== src/Auth/Password.antt =====
-- packages/auth/src/password.ts: the policy of passwords. The digest of scrypt with its random salt is
-- a parameter.
use validateur_facturx.Common.{
  ℕ, ◌++◌, Option, none, some, Result, ok, err, ltb, length, if◌then◌else◌,
}
use validateur_facturx.Common.Text.{Text, codes}
use validateur_facturx.Money.Digits.{to_string}

abbrev pub min_password_length : ℕ
min_password_length = 12

abbrev pub max_password_length : ℕ
max_password_length = 512

unfoldable pub password_problem : Text → Option Text
password_problem password =
    if ltb (length password) min_password_length
    then some (
        codes "Le mot de passe doit contenir au moins "
        ++ (to_string min_password_length ++ codes " caractères."))
    else if ltb max_password_length (length password)
    then some (
        codes "Le mot de passe ne peut pas dépasser "
        ++ (to_string max_password_length ++ codes " caractères."))
    else none

-- `hashPassword`, which throws on a weak password.
unfoldable pub hash_password : (Text → Text) → Text → Result Text Text
hash_password digest password = elim (password_problem password) [
  | some problem ↦ err problem
  | none ↦ ok (digest password)
]
