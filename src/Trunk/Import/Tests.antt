-- ===== src/Trunk/Import/Tests.antt =====
-- Runs of the imports on two tenants.
use zenith_voip.Prelude.{
  All, ℕ, ◌+◌, ◌≡◌, refl, false, none, some, List, [], ◌∷◌, ◌++◌, ◌⊎◌, Text, codes, text_eq, length,
  arith,
}
use zenith_voip.Prelude.Dict.{Dict, lookup}
use zenith_voip.Prelude.Result.{ok, err}
use zenith_voip.Text.{strip}
use zenith_voip.Trunk.Db.{
  get_pbx, get_condominium, get_trunk, find_identity, find_prefix, all_digits, identity_taken,
  prefix_taken, violation, create_trunk,
}
use zenith_voip.Trunk.Service.{
  scope, trunk_not_found, validate_scope, ensure_unique, validate_create_inputs, prepare, create,
  owned_trunk, update,
}
use zenith_voip.Trunk.Service.Upsert.{validate_importable, upsert_imported}
use zenith_voip.Trunk.Service.Examples.{tools, theirs, tables}
use zenith_voip.Trunk.Import.{
  TrunkRow, ImportResult, Target, BatchError, service, new_result, count, reject, error_column,
  csv_rows, import_trunk_csv, any_missing, resolved_rows, validate_rows, import_trunk_json_batch,
}
use zenith_voip.Trunk.Import.Totals.{
  total, import_trunk_csv-total, IsImportable, import_trunk_json_batch-total,
}
use zenith_voip.Trunk.Import.Isolation.{imports-others}

abbrev target : Target
target = record { new_id = λ n. codes "n" ++ (n ∷ []); tenant_id = codes "A"; pbx_id = codes "pa" }

abbrev row : ℕ → Text → TrunkRow
row n username = record {
  line = n;
  prefix = none;
  condominium_name = codes "Sol";
  auth_username = username;
  password = codes "pw";
  sip_profile = codes "internal-7060";
  condominium_id = some (codes "ca");
}

-- a new identity, and one of the other tenant
abbrev lines : List TrunkRow
lines = row 2 (codes "eva") ∷ row 3 (codes "bia") ∷ []

abbrev ids : Dict Text
ids = (codes "Sol", codes "ca") ∷ []

abbrev outcome : ImportResult
outcome = (record (new_result false 2 1) {
  created_rows = 1;
  rejected = 1;
  errors = record { line = 3; code = trunk_not_found; column = none } ∷ [];
})

csv_runs : (import_trunk_csv tools target false lines 1 tables).0 ≡ ok outcome
unfolding text_eq import_trunk_csv csv_rows upsert_imported create prepare validate_create_inputs
    validate_scope ensure_unique get_pbx get_condominium find_identity find_prefix all_digits strip
    violation identity_taken prefix_taken create_trunk update owned_trunk get_trunk count reject
    error_column
csv_runs = refl

import_trunk_csv-total_test :
    (total outcome ≡ 1 + length lines) × (length outcome.errors ≡ outcome.rejected)
import_trunk_csv-total_test = import_trunk_csv-total tools target lines 1 tables outcome csv_runs

batch_refused :
    import_trunk_json_batch tools target ids false lines tables
    ≡ (err (service (scope trunk_not_found)), tables)
unfolding text_eq import_trunk_json_batch any_missing lookup resolved_rows validate_rows
    validate_importable validate_create_inputs validate_scope ensure_unique get_pbx get_condominium
    find_identity find_prefix all_digits strip
batch_refused = refl

import_trunk_json_batch-total_example :
    (((import_trunk_json_batch tools target ids false lines tables).1 ≡ tables)
      × ((e : BatchError) × ((import_trunk_json_batch tools target ids false lines tables).0
            ≡ err e)))
    ⊎ (All (IsImportable tools target ids tables) lines
        × ((s : ImportResult)
            → (import_trunk_json_batch tools target ids false lines tables).0 ≡ ok s
            → (total s ≡ length lines) × (s.rejected ≡ 0)))
import_trunk_json_batch-total_example = import_trunk_json_batch-total tools target ids lines tables

imports-others_example :
    (get_trunk (codes "t2") (import_trunk_csv tools target false lines 1 tables).1.trunks
      ≡ some theirs)
    × (get_trunk (codes "t2") (import_trunk_json_batch tools target ids false lines tables).1.trunks
        ≡ some theirs)
unfolding text_eq get_trunk
imports-others_example =
    imports-others tools target ids false lines 1 tables (codes "t2") theirs refl
      (λ e. absurd (ground (arith, e)))
