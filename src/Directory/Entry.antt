-- ===== src/Directory/Entry.antt =====
-- The entry of a user in the answer of the directory (src/api/freeswitch_directory.py).
use zenith_voip.Prelude.{Option, none, some, List, [], ◌∷◌, map, Text, codes}
use zenith_voip.Prelude.Dict.{Dict}
use zenith_voip.Prelude.Xml.{Element, element, nil, children_of}
use zenith_voip.Trunk.Db.{Trunk}
use zenith_voip.Directory.Legacy.{LegacyUser}

-- The dictionary that `lookup` returns, for a trunk and for a legacy user.
pub data DirectoryUser : Type 0 where
  trunk_user : Trunk → Text → DirectoryUser
  legacy_user : LegacyUser → DirectoryUser

abbrev pub named_value : Text → Text × Text → Element
named_value tag (name, v) = element tag ((codes "name", name) ∷ (codes "value", v) ∷ []) nil

-- `user.get("params") or (("password", user["password"]),)`
abbrev pub supplied_params : DirectoryUser → List (Text × Text)
supplied_params (trunk_user t s) = (codes "password", s) ∷ []
supplied_params (legacy_user u) = elim u.params [
  | [] ↦ (codes "password", u.password) ∷ []
  | p ∷ ps ↦ p ∷ ps
]

abbrev pub prefix_variable : Option Text → List (Text × Text)
prefix_variable none = []
prefix_variable (some p) = (codes "zenith_trunk_prefix", p) ∷ []

abbrev pub supplied_variables : DirectoryUser → List (Text × Text)
supplied_variables (legacy_user u) = u.variables
supplied_variables (trunk_user t s) =
    (codes "user_context", codes "default")
    ∷ (codes "zenith_tenant_id", t.tenant_id)
    ∷ (codes "zenith_pbx_id", t.pbx_id)
    ∷ (codes "zenith_condominium_id", t.condominium_id)
    ∷ (codes "zenith_trunk_id", t.id)
    ∷ prefix_variable t.prefix

abbrev pub auth_username_of : DirectoryUser → Text
auth_username_of (trunk_user t s) = t.auth_username
auth_username_of (legacy_user u) = u.username

abbrev pub inside : Text → Dict Text → List Element → Element
inside tag attributes es = element tag attributes (children_of es)

unfoldable pub user_element : DirectoryUser → Element
user_element user = inside (codes "user") ((codes "id", auth_username_of user) ∷ []) (
    inside (codes "params") [] (map (named_value (codes "param")) (supplied_params user))
    ∷ inside (codes "variables") [] (map (named_value (codes "variable")) (supplied_variables user))
    ∷ [])

-- `build_directory_xml`, before it is printed
unfoldable pub build_directory_xml : Text → DirectoryUser → Element
build_directory_xml domain user =
    inside (codes "document") ((codes "type", codes "freeswitch/xml") ∷ []) (
      inside (codes "section") ((codes "name", codes "directory") ∷ []) (
        inside (codes "domain") ((codes "name", domain) ∷ []) (
          inside (codes "groups") [] (
            inside (codes "group") ((codes "name", codes "default") ∷ [])
              (inside (codes "users") [] (user_element user ∷ []) ∷ [])
            ∷ [])
          ∷ [])
        ∷ [])
      ∷ [])
