-- ===== src/Trunk/Db.antt =====
-- The tables for trunks (src/database/models.py) and the calls of `Repository` on them
-- (src/services/base.py). A commit that breaks a constraint leaves the table as it was.
use zenith_voip.Prelude.{
  ℕ, Bool, true, false, not, ◌&&◌, ◌||◌, Option, none, some, List, [], ◌∷◌, ◌++◌, Text, codes,
  text_eq, is_digit, ltb, leb, length, is_some, if◌then◌else◌,
}
use zenith_voip.Prelude.Result.{Result, ok, err}

pub data RegistrationStatus : Type 0 where
  unknown registered unregistered : RegistrationStatus

pub record Pbx : Type 0 where
  pub id : Text
  pub tenant_id : Text

pub record Condominium : Type 0 where
  pub id : Text
  pub tenant_id : Text
  pub pbx_id : Text
  pub enabled : Bool

pub record Trunk : Type 0 where
  pub id : Text
  pub tenant_id : Text
  pub pbx_id : Text
  pub condominium_id : Text
  pub prefix : Option Text
  pub auth_username : Text
  pub encrypted_password : Text
  pub sip_profile : Text
  pub transport : Text
  pub enabled : Bool
  pub registration_status : RegistrationStatus
  pub last_registered_at : Option ℕ
  pub last_unregistered_at : Option ℕ

pub record Tenant : Type 0 where
  pub id : Text
  pub is_active : Bool

pub record Db : Type 0 where
  pub pbxs : List Pbx
  pub condominiums : List Condominium
  pub trunks : List Trunk

-- `Repository.get`
unfoldable pub get_pbx : Text → List Pbx → Option Pbx
get_pbx id [] = none
get_pbx id (p ∷ ps) = if text_eq p.id id then some p else get_pbx id ps

unfoldable pub get_condominium : Text → List Condominium → Option Condominium
get_condominium id [] = none
get_condominium id (c ∷ cs) = if text_eq c.id id then some c else get_condominium id cs

unfoldable pub get_tenant : Text → List Tenant → Option Tenant
get_tenant id [] = none
get_tenant id (t ∷ ts) = if text_eq t.id id then some t else get_tenant id ts

unfoldable pub get_trunk : Text → List Trunk → Option Trunk
get_trunk id [] = none
get_trunk id (t ∷ ts) = if text_eq t.id id then some t else get_trunk id ts

abbrev pub has_identity : Text → Text → Trunk → Bool
has_identity profile username t = text_eq t.sip_profile profile && text_eq t.auth_username username

-- The first row of `find_by(sip_profile=…, auth_username=…)`.
unfoldable pub find_identity : Text → Text → List Trunk → Option Trunk
find_identity profile username [] = none
find_identity profile username (t ∷ ts) =
    if has_identity profile username t then some t else find_identity profile username ts

-- `prefix == value`, which no row without a prefix meets
abbrev pub has_prefix : Text → Option Text → Bool
has_prefix value none = false
has_prefix value (some p) = text_eq p value

-- The first row of `find_by(tenant_id=…, prefix=…)`.
unfoldable pub find_prefix : Text → Text → List Trunk → Option Trunk
find_prefix tenant prefix [] = none
find_prefix tenant prefix (t ∷ ts) =
    if text_eq t.tenant_id tenant && has_prefix prefix t.prefix
    then some t
    else find_prefix tenant prefix ts

unfoldable pub all_digits : Text → Bool
all_digits [] = true
all_digits (c ∷ s) = is_digit c && all_digits s

-- `[0-9]{1,32}` over the whole text
abbrev pub is_prefix_text : Text → Bool
is_prefix_text s = ltb 0 (length s) && leb (length s) 32 && all_digits s

abbrev pub prefix_ok : Option Text → Bool
prefix_ok none = true
prefix_ok (some s) = is_prefix_text s

abbrev pub is_profile : Text → Bool
is_profile s = text_eq s (codes "internal") || text_eq s (codes "internal-7060")

-- The constraints of the table, in the order in which they are tested: the column's width, the
-- checks, the unique indexes and the foreign keys.
pub data Violation : Type 0 where
  value_too_long prefix_digits other_check profile_username tenant_prefix foreign_key : Violation

-- Another row has the prefix within the tenant.
unfoldable pub prefix_taken : Text → Text → Option Text → List Trunk → Bool
prefix_taken id tenant none us = false
prefix_taken id tenant (some p) [] = false
prefix_taken id tenant (some p) (u ∷ us) =
    (not (text_eq u.id id) && text_eq u.tenant_id tenant && has_prefix p u.prefix)
    || prefix_taken id tenant (some p) us

unfoldable pub identity_taken : Text → Text → Text → List Trunk → Bool
identity_taken id profile username [] = false
identity_taken id profile username (u ∷ us) =
    (not (text_eq u.id id) && has_identity profile username u)
    || identity_taken id profile username us

unfoldable pub violation : Db → Trunk → Option Violation
violation db t =
    if ltb 128 (length t.auth_username)
    then some value_too_long
    else if not (prefix_ok t.prefix)
    then some prefix_digits
    else if not (is_profile t.sip_profile) || not (text_eq t.transport (codes "udp"))
    then some other_check
    else if identity_taken t.id t.sip_profile t.auth_username db.trunks
    then some profile_username
    else if prefix_taken t.id t.tenant_id t.prefix db.trunks
    then some tenant_prefix
    else if is_some (get_pbx t.pbx_id db.pbxs)
        && is_some (get_condominium t.condominium_id db.condominiums)
    then none
    else some foreign_key

-- `Repository.create`; the row carries its new id.
unfoldable pub create_trunk : Db → Trunk → Result Violation Trunk × Db
create_trunk db t = elim (violation db t) [
  | some v ↦ (err v, db)
  | none ↦ (ok t, record db { trunks = db.trunks ++ (t ∷ []) })
]

unfoldable pub replace_trunk : Trunk → List Trunk → List Trunk
replace_trunk t [] = []
replace_trunk t (u ∷ us) = if text_eq u.id t.id then t ∷ us else u ∷ replace_trunk t us

-- `Repository.update` of the row with the id of `t` to the values of `t`.
unfoldable pub update_trunk : Db → Trunk → Result Violation (Option Trunk) × Db
update_trunk db t =
    if is_some (get_trunk t.id db.trunks)
    then elim (violation db t) [
      | some v ↦ (err v, db)
      | none ↦ (ok (some t), record db { trunks = replace_trunk t db.trunks })
    ]
    else (ok none, db)
