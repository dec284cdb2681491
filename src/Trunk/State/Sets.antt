-- ===== src/Trunk/State/Sets.antt =====
-- The sets of active calls as sets.
use zenith_voip.Prelude.{
  ◌≡◌, Bool, true, false, not, ◌&&◌, ◌||◌, List, [], ◌∷◌, Text, text_eq, text_eq_iff, text_eq_refl,
  is_empty, if◌then◌else◌, arith,
}
use zenith_voip.Prelude.Dict.{Dict, insert, lookup-insert}
use zenith_voip.Trunk.State.{State, member_of, sadd, srem, smembers, track_call, active_calls}

pub member-srem :
    (x y : Text) (s : List Text) → member_of y (srem x s) ≡ (not (text_eq x y) && member_of y s)
unfolding member_of srem
member-srem x y [] = ground arith
member-srem x y (z ∷ zs) =
    ground (arith, member-srem x y zs, text_eq_iff z x, text_eq_iff z y, text_eq_iff x y)

pub member-sadd :
    (x y : Text) (s : List Text) → member_of y (sadd x s) ≡ (text_eq x y || member_of y s)
unfolding member_of sadd
member-sadd x y s = ground (arith, text_eq_iff x y)

pub smembers-insert :
    (id j : Text) (s : List Text) (d : Dict (List Text))
    → smembers j (insert id s d) ≡ (if text_eq id j then s else smembers j d)
unfolding smembers
smembers-insert id j s d = ground (arith, lookup-insert id j s d)

-- Tracking a call with an id of a trunk with an id makes that call, and no other, active or inactive
-- in the trunk's set as asked, leaves the sets of all other trunks as they were, and returns the number
-- that `active_calls` then reports.
pub track_call_lem :
    (id call : Text) (active : Bool) (st : State) (j c : Text)
    → is_empty id ≡ false
    → is_empty call ≡ false
    → let after = (track_call id call active st).1 in
      (member_of c (smembers j after.calls)
        ≡ (if text_eq id j && text_eq call c then active else member_of c (smembers j st.calls)))
      × ((track_call id call active st).0 ≡ active_calls id after)
unfolding track_call active_calls
track_call_lem id call true st j c h k =
    let s = sadd call (smembers id st.calls) in
    ground (
      arith,
      h,
      k,
      text_eq_iff id j,
      text_eq_refl id,
      member-sadd call c (smembers id st.calls),
      smembers-insert id j s st.calls,
      smembers-insert id id s st.calls,
    )
track_call_lem id call false st j c h k =
    let s = srem call (smembers id st.calls) in
    ground (
      arith,
      h,
      k,
      text_eq_iff id j,
      text_eq_refl id,
      member-srem call c (smembers id st.calls),
      smembers-insert id j s st.calls,
      smembers-insert id id s st.calls,
    )
