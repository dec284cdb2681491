-- ===== src/Directory/RoundTrip.antt =====
-- Reading the answer of the directory as the legacy file is read.
use zenith_voip.Prelude.{
  ◌≡◌, refl, false, List, [], ◌∷◌, map, Text, text_eq_refl, codes, text_eq, is_empty, append-nil,
}
use zenith_voip.Prelude.Dict.{lookup, insert}
use zenith_voip.Prelude.Result.{ok}
use zenith_voip.Prelude.Xml.{Children, children_of, named, named_in, below}
use zenith_voip.Text.{strip}
use zenith_voip.Directory.Legacy.{LegacyUser, pairs, first_password, user_of, add_users, candidates}
use zenith_voip.Directory.Entry.{
  DirectoryUser, named_value, supplied_params, supplied_variables, auth_username_of, user_element,
  build_directory_xml,
}

abbrev pub values : Text → List (Text × Text) → Children
values tag ps = children_of (map (named_value tag) ps)

pairs-named : (tag : Text) (ps : List (Text × Text)) → pairs (named tag (values tag ps)) ≡ ps
unfolding named lookup text_eq
pairs-named tag [] = refl
pairs-named tag (p ∷ ps) = rw (text_eq_refl tag, pairs-named tag ps) refl

no_users :
    (tag : Text) (ps : List (Text × Text))
    → text_eq tag (codes "user") ≡ false
    → below (codes "user") (values tag ps) ≡ []
unfolding below
no_users tag [] h = refl
no_users tag (p ∷ ps) h = rw (h, no_users tag ps h) refl

-- The user that the answer stands for.
abbrev pub answered_user : DirectoryUser → LegacyUser
answered_user user = record {
  username = strip (auth_username_of user);
  password = first_password (supplied_params user);
  params = supplied_params user;
  variables = supplied_variables user;
}

user_of-user_element : (user : DirectoryUser) → user_of (user_element user) ≡ answered_user user
unfolding user_of user_element named_in named text_eq lookup
user_of-user_element user =
    rw
      (
        append-nil (named (codes "param") (values (codes "param") (supplied_params user))),
        append-nil (named (codes "variable") (values (codes "variable") (supplied_variables user))),
        pairs-named (codes "param") (supplied_params user),
        pairs-named (codes "variable") (supplied_variables user),
      )
      refl

candidates-build_directory_xml :
    (domain : Text) (user : DirectoryUser)
    → candidates (build_directory_xml domain user) ≡ user_element user ∷ []
unfolding candidates build_directory_xml below user_element text_eq
candidates-build_directory_xml domain user =
    rw
      (
        no_users (codes "param") (supplied_params user) refl,
        no_users (codes "variable") (supplied_variables user) refl,
      )
      refl

-- Any answer with a user reads, by the reading of the legacy file, as that one user: the username
-- without blanks around it, which must not be empty, the parameters and variables of the answer in
-- their order, and the first parameter named password.
pub read_answer :
    (domain : Text) (user : DirectoryUser)
    → is_empty (strip (auth_username_of user)) ≡ false
    → add_users (candidates (build_directory_xml domain user)) []
      ≡ ok ((strip (auth_username_of user), answered_user user) ∷ [])
unfolding add_users insert lookup
read_answer domain user h =
    rw (candidates-build_directory_xml domain user, user_of-user_element user, h) refl
