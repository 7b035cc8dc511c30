-- ===== src/Auth/Permissions.antt =====
-- packages/auth/src/permissions.ts: the matrix of roles, and the scope of a user.
use validateur_facturx.Common.{Bool, true, false, List, Option, none, some}
use validateur_facturx.Common.Text.{Text, includes}

pub data UserRole : Type 0 where
  owner accountant client_user : UserRole

pub data Permission : Type 0 where
  client_org_read client_org_create : Permission
  invoice_read invoice_issue invoice_receive invoice_download invoice_transmit : Permission
  pdp_read pdp_manage user_manage : Permission

-- `ROLE_PERMISSIONS[role].includes(permission)`
unfoldable pub can : UserRole → Permission → Bool
can owner permission = true
can accountant user_manage = false
can accountant permission = true
can client_user client_org_read = true
can client_user invoice_read = true
can client_user invoice_receive = true
can client_user invoice_download = true
can client_user pdp_read = true
can client_user permission = false

unfoldable pub is_scoped_role : UserRole → Bool
is_scoped_role owner = false
is_scoped_role accountant = false
is_scoped_role client_user = true

unfoldable pub is_client_org_allowed : Option (List Text) → Text → Bool
is_client_org_allowed none client_org_id = true
is_client_org_allowed (some ids) client_org_id = includes ids client_org_id
