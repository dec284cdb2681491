-- ===== src/Trunk/Service/Lookup.antt =====
-- `TrunkService.lookup_directory_identity` (src/services/trunks.py).
use zenith_voip.Prelude.{
  Bool, true, false, ◌&&◌, Option, none, some, List, Text, text_eq, if◌then◌else◌,
}
use zenith_voip.Trunk.Db.{
  Tenant, get_tenant, Condominium, Trunk, Db, get_pbx, get_condominium, find_identity,
}
use zenith_voip.Trunk.Service.{pbx_in_tenant}

abbrev pub tenant_is_active : Text → Option (List Tenant) → Bool
tenant_is_active tenant none = true
tenant_is_active tenant (some ts) = elim (get_tenant tenant ts) [
  | none ↦ false
  | some x ↦ x.is_active
]

abbrev pub condominium_serves : Trunk → Option Condominium → Bool
condominium_serves t none = false
condominium_serves t (some c) =
    c.enabled && text_eq c.tenant_id t.tenant_id && text_eq c.pbx_id t.pbx_id

-- `lookup_directory_identity`; the service may have been made without a repository of tenants.
unfoldable pub lookup_directory_identity : Option (List Tenant) → Text → Text → Db → Option Trunk
lookup_directory_identity tenants profile username db =
    elim (find_identity profile username db.trunks) [
      | none ↦ none
      | some t ↦
          if t.enabled
            && condominium_serves t (get_condominium t.condominium_id db.condominiums)
            && pbx_in_tenant t.tenant_id (get_pbx t.pbx_id db.pbxs)
            && tenant_is_active t.tenant_id tenants
          then some t
          else none
    ]
