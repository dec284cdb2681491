-- ===== src/Trunk/State/Reconcile/Calls.antt =====
-- After a reconciliation, the active calls are those that FreeSWITCH reports.
use zenith_voip.Prelude.{
  ℕ, ◌≡◌, Bool, refl, not, ◌&&◌, ◌||◌, some, List, [], ◌∷◌, Text, false, text_eq, is_empty,
  text_eq_iff, if◌then◌else◌, arith,
}
use zenith_voip.Prelude.Dict.{Dict, insert, lookup}
use zenith_voip.Trunk.Service.{given}
use zenith_voip.Trunk.State.{State, member_of, sadd, srem, smembers, mark_registered_unknown}
use zenith_voip.Trunk.State.Sets.{member-sadd, member-srem, smembers-insert}
use zenith_voip.Trunk.State.Reconcile.{
  Esl, Channel, Registration, remove_orphans, add_active, corrected, correct_sets, observe,
  observed_calls, list_enabled_ids, reconcile_active_calls, set_registered, reconcile,
}

member-remove_orphans :
    (current expected s : List Text) (y : Text)
    → member_of y (remove_orphans current expected s)
      ≡ (member_of y s && not (member_of y current && not (member_of y expected)))
unfolding remove_orphans member_of
member-remove_orphans [] expected s y = ground arith
member-remove_orphans (x ∷ current) expected s y = ground (
  arith,
  text_eq_iff x y,
  member-srem x y s,
  member-remove_orphans current expected (srem x s) y,
  member-remove_orphans current expected s y,
)

member-add_active :
    (expected current s : List Text) (y : Text)
    → member_of y (add_active expected current s)
      ≡ (member_of y s || (member_of y expected && not (member_of y current)))
unfolding add_active member_of
member-add_active [] current s y = ground arith
member-add_active (x ∷ expected) current s y = ground (
  arith,
  text_eq_iff x y,
  member-sadd x y s,
  member-add_active expected current (sadd x s) y,
  member-add_active expected current s y,
)

member-corrected :
    (current expected : List Text) (y : Text)
    → member_of y (corrected current expected) ≡ member_of y expected
member-corrected current expected y = ground (
  arith,
  member-add_active expected current (remove_orphans current expected current) y,
  member-remove_orphans current expected current y,
)

-- The set of a trunk that is corrected later, or not at all, stays.
correct_sets-once :
    (ids : List Text) (observed calls : Dict (List Text)) (j c : Text)
    → member_of c (smembers j (correct_sets ids observed calls)) ≡ (
        if member_of j ids
        then member_of c (smembers j observed)
        else member_of c (smembers j calls))
unfolding correct_sets member_of
correct_sets-once [] observed calls j c = refl
correct_sets-once (id ∷ ids) observed calls j c =
    let s = corrected (smembers id calls) (smembers id observed) in
    ground (
      arith,
      text_eq_iff id j,
      correct_sets-once ids observed (insert id s calls) j c,
      smembers-insert id j s calls,
      member-corrected (smembers id calls) (smembers id observed) c,
    )

-- A channel has the trunk's id and the call's, neither of them empty.
abbrev pub names_call : Text → Text → Channel → Bool
names_call j c channel =
    text_eq (given channel.trunk_id []) j && text_eq (given channel.call_uuid []) c

unfoldable pub is_reported : Text → Text → List Channel → Bool
is_reported j c [] = false
is_reported j c (channel ∷ channels) =
    names_call j c channel && not (is_empty j) && not (is_empty c) || is_reported j c channels

member-observed_calls :
    (channels : List Channel) (d : Dict (List Text)) (j c : Text)
    → member_of c (smembers j (observed_calls channels d))
      ≡ (is_reported j c channels || member_of c (smembers j d))
unfolding observed_calls is_reported observe
member-observed_calls [] d j c = refl
member-observed_calls (channel ∷ channels) d j c =
    let id = given channel.trunk_id [] in
    let call = given channel.call_uuid [] in
    let s = sadd call (smembers id d) in
    ground (
      arith,
      text_eq_iff id j,
      text_eq_iff call c,
      member-observed_calls channels d j c,
      member-observed_calls channels (insert id s d) j c,
      smembers-insert id j s d,
      member-sadd call c (smembers id d),
    )

nothing_yet : (j c : Text) → member_of c (smembers j []) ≡ false
unfolding smembers member_of lookup
nothing_yet j c = refl

-- When FreeSWITCH answers with its registrations and channels, a reconciliation leaves in the set of
-- each enabled trunk exactly the calls that some channel reports with the trunk's id, both ids being
-- given, and every other set as it was.
pub reconcile-calls :
    (now : ℕ) (esl : Esl) (st : State) (rs : List Registration) (channels : List Channel)
    (j c : Text)
    → esl.registrations ≡ some rs
    → esl.channels ≡ some channels
    → let after = (reconcile now esl st).0 in
      member_of c (smembers j after.calls) ≡ (
        if member_of j (list_enabled_ids after.trunks)
        then is_reported j c channels
        else member_of c (smembers j st.calls))
unfolding reconcile smembers reconcile_active_calls
reconcile-calls now esl st rs channels j c r h =
    let marked = mark_registered_unknown st.trunks in
    let ts =
      (set_registered now rs marked.0
        (record { unknown_rows = marked.1; registered_rows = 0; errors = 0 })).0 in
    ground (
      arith,
      r,
      h,
      correct_sets-once (list_enabled_ids ts) (observed_calls channels []) st.calls j c,
      member-observed_calls channels [] j c,
      nothing_yet j c,
    )
