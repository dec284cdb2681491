-- ===== src/Trunk/Service/Examples.antt =====
-- Two tenants with their PBX, condominium and trunks.
use zenith_voip.Prelude.{true, none, some, List, [], ◌∷◌, ◌++◌, codes, text_eq}
use zenith_voip.Prelude.Result.{ok}
use zenith_voip.Trunk.Db.{registered, Trunk, Db, Tenant}
use zenith_voip.Trunk.Service.{Collaborators, NewTrunk, Changes}
use zenith_voip.Trunk.Service.Upsert.{Row}

-- A cipher that marks its text, and a legacy directory with one user.
abbrev pub tools : Collaborators
tools = record {
  legacy_contains = λ profile username. ok (text_eq username (codes "legacy"));
  encrypt = λ s. ok (codes "#" ++ s);
}

abbrev pub ours : Trunk
ours = record {
  id = codes "t1";
  tenant_id = codes "A";
  pbx_id = codes "pa";
  condominium_id = codes "ca";
  prefix = some (codes "10");
  auth_username = codes "ana";
  encrypted_password = codes "#old";
  sip_profile = codes "internal";
  transport = codes "udp";
  enabled = true;
  registration_status = registered;
  last_registered_at = some 5;
  last_unregistered_at = none;
}

abbrev pub theirs : Trunk
theirs = record {
  id = codes "t2";
  tenant_id = codes "B";
  pbx_id = codes "pb";
  condominium_id = codes "cb";
  prefix = none;
  auth_username = codes "bia";
  encrypted_password = codes "#other";
  sip_profile = codes "internal-7060";
  transport = codes "udp";
  enabled = true;
  registration_status = registered;
  last_registered_at = some 7;
  last_unregistered_at = none;
}

abbrev pub tables : Db
tables = record {
  pbxs =
      record { id = codes "pa"; tenant_id = codes "A" }
      ∷ record { id = codes "pb"; tenant_id = codes "B" }
      ∷ [];
  condominiums =
      record { id = codes "ca"; tenant_id = codes "A"; pbx_id = codes "pa"; enabled = true }
      ∷ record { id = codes "cb"; tenant_id = codes "B"; pbx_id = codes "pb"; enabled = true }
      ∷ [];
  trunks = ours ∷ theirs ∷ [];
}

abbrev pub tenants : List Tenant
tenants =
    record { id = codes "A"; is_active = true } ∷ record { id = codes "B"; is_active = true } ∷ []

abbrev pub newcomer : NewTrunk
newcomer = record {
  condominium_id = codes "ca";
  prefix = some (codes "20");
  auth_username = codes "caio";
  password = codes "pw";
  sip_profile = codes "internal";
  transport = codes "udp";
  enabled = true;
}

-- a new password only
abbrev pub new_password : Changes
new_password = record {
  condominium_id = none;
  prefix = none;
  auth_username = none;
  sip_profile = none;
  enabled = none;
  password = some (codes "pw");
}

-- a row with the identity of the other tenant's trunk
abbrev pub stolen : Row
stolen = record {
  condominium_id = codes "ca";
  prefix = none;
  auth_username = codes "bia";
  password = codes "pw";
  sip_profile = codes "internal-7060";
}
