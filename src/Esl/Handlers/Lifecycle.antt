-- ===== src/Esl/Handlers/Lifecycle.antt =====
-- The record of a call from its first event to its last.
use zenith_voip.Prelude.{
  ℕ, ◌≡◌, refl, ap, ◌∙◌, Bool, true, false, not, ◌&&◌, Option, none, some, List, [], ◌∷◌, ◌++◌,
  Text, codes, text_eq_iff, text_eq_refl, is_empty, is_some, if◌then◌else◌, arith, Option-cases,
  Bool-cases, inl, inr,
}
use zenith_voip.Prelude.Dict.{Dict, lookup, lookup-insert, lookup-erase}
use zenith_voip.Prelude.Result.{ok}
use zenith_voip.Esl.Calls.{
  completed, failed, in_progress, ringing, CallRow, Tables, new_row, lasted, ended, is_normal,
  or_none, find_call, replace_call, fits_columns, insert_call, create_call_record,
  create_ringing_call_record, mark_call_in_progress, finalize_call_record, tenant_session,
}
use zenith_voip.Esl.Handlers.{
  World, header, call_id_of, tenant_of, is_inbound, new_call, ringing_agent, track_trunk_call,
  handle_manual_linkage, handle_channel_create, answer_record, handle_channel_answer,
  handle_channel_hangup,
}

find_call-append :
    (id : Text) (r : CallRow) (rows : List CallRow)
    → find_call id rows ≡ none
    → r.call_id ≡ id
    → find_call id (rows ++ (r ∷ [])) ≡ some r
unfolding find_call
find_call-append id r [] h e = ground (arith, text_eq_iff r.call_id id)
find_call-append id r (q ∷ qs) h e = ground (arith, find_call-append id r qs)

find_call-id :
    (id : Text) (rows : List CallRow) (q : CallRow) → find_call id rows ≡ some q → q.call_id ≡ id
unfolding find_call
find_call-id id [] q h = absurd (ground arith)
find_call-id id (x ∷ xs) q h = ground (arith, find_call-id id xs q, text_eq_iff x.call_id id)

find_call-replace :
    (id : Text) (r q : CallRow) (rows : List CallRow)
    → find_call id rows ≡ some q
    → r.call_id ≡ id
    → find_call id (replace_call r rows) ≡ some r
unfolding find_call replace_call
find_call-replace id r q [] h e = absurd (ground arith)
find_call-replace id r q (x ∷ xs) h e = ground (
  arith,
  find_call-replace id r q xs,
  text_eq_iff r.call_id id,
  text_eq_iff x.call_id id,
  text_eq_iff x.call_id r.call_id,
)

-- The record of the call in the tenant's tables.
abbrev pub call_at : Text → Text → Tables → Option CallRow
call_at tenant call t = elim (lookup tenant t) [ none ↦ none | some rows ↦ find_call call rows ]

insert_call-keeps :
    (is_uuid : Text → Bool) (tenant : Text) (r : CallRow) (t : Tables) (j : Text)
    → is_some (lookup j t) ≡ true
    → is_some (lookup j (insert_call is_uuid tenant r t).1) ≡ true
unfolding insert_call tenant_session
insert_call-keeps is_uuid tenant r t j h = elim (Option-cases (lookup tenant t)) [
  | inl e ↦ ground (arith, e, h)
  | inr (rows, e) ↦ elim (Bool-cases (fits_columns is_uuid r)) [
    | inr f ↦ ground (arith, e, h, f)
    | inl f ↦ ground (arith, e, h, f, lookup-insert tenant j (rows ++ (r ∷ [])) t)
  ]
]

-- What the answer of a call makes of its record: a new one where there was none.
abbrev pub answered_row : ℕ → Dict Text → Option CallRow → CallRow
answered_row now e none =
    new_row in_progress now (new_call (header (codes "variable_zenith_agent_extension") e) e)
answered_row now e (some q) = q

answer_lem :
    (is_uuid : Text → Bool) (now : ℕ) (e : Dict Text) (t : Tables)
    → is_some (lookup (tenant_of e) t) ≡ true
    → fits_columns is_uuid (answered_row now e none) ≡ true
    → let call = call_at (tenant_of e) (call_id_of e) in
      call (answer_record is_uuid now e t) ≡ some (answered_row now e (call t))
unfolding answer_record mark_call_in_progress create_call_record insert_call tenant_session
answer_lem is_uuid now e t h fit =
    let tenant = tenant_of e in
    let call = call_id_of e in
    elim (Option-cases (lookup tenant t)) [
      | inl n ↦ absurd (ground (arith, n, h))
      | inr (rows, s) ↦ elim (Option-cases (find_call call rows)) [
        | inl f ↦
            let r = answered_row now e none in
            ground (
              arith,
              s,
              f,
              fit,
              lookup-insert tenant tenant (rows ++ (r ∷ [])) t,
              text_eq_refl tenant,
              find_call-append call r rows f refl,
            )
        | inr (q, f) ↦ ground (arith, s, f)
      ]
    ]

finalize_lem :
    (tenant call : Text) (cause : Option Text) (now : ℕ) (t : Tables) (q : CallRow)
    → call_at tenant call t ≡ some q
    → ((finalize_call_record tenant call cause now t).0 ≡ ok tt)
      × (call_at tenant call (finalize_call_record tenant call cause now t).1
          ≡ some (ended now cause q))
unfolding finalize_call_record tenant_session
finalize_lem tenant call cause now t q h = elim (Option-cases (lookup tenant t)) [
  | inl n ↦ absurd (ground (arith, n, h))
  | inr (rows, s) ↦
      let f : find_call call rows ≡ some q = ground (arith, s, h) in
      let r = ended now cause q in
      (
        ground (arith, s, f),
        ground (
          arith,
          s,
          f,
          lookup-insert tenant tenant (replace_call r rows) t,
          text_eq_refl tenant,
          find_call-replace call r q rows f (find_call-id call rows q f),
        ),
      )
]

track-tables :
    (active : Bool) (e : Dict Text) (w : World) → (track_trunk_call active e w).tables ≡ w.tables
unfolding track_trunk_call
track-tables active e w = ground arith

create-keeps :
    (is_uuid : Text → Bool) (has_ip : Bool) (now : ℕ) (e : Dict Text) (w : World) (j : Text)
    → is_some (lookup j w.tables) ≡ true
    → is_some (lookup j (handle_channel_create is_uuid has_ip now e w).tables) ≡ true
unfolding handle_channel_create handle_manual_linkage create_ringing_call_record
create-keeps is_uuid has_ip now e w j h =
    let same = track-tables true e w in
    let row = new_row ringing now (new_call (ringing_agent e) e) in
    let tracked = (track_trunk_call true e w).tables in
    ground (
      arith,
      same,
      h,
      insert_call-keeps is_uuid (tenant_of e) row tracked j
          (ap (λ t. is_some (lookup j t)) same ∙ h),
    )

-- A channel that does not come in, has no tenant, or has no id makes no record when it is created.
pub handle_channel_create-silent :
    (is_uuid : Text → Bool) (has_ip : Bool) (now : ℕ) (e : Dict Text) (w : World)
    → (is_inbound e && not (is_empty (tenant_of e)) && not (is_empty (call_id_of e))) ≡ false
    → (handle_channel_create is_uuid has_ip now e w).tables ≡ w.tables
unfolding handle_channel_create handle_manual_linkage
handle_channel_create-silent is_uuid has_ip now e w h = ground (arith, h, track-tables true e w)

-- Answering a call never changes a record that is there: the promotion of `mark_call_in_progress`,
-- which answers True for one, is not committed, whatever the tables.
pub mark_call_in_progress-lost :
    (tenant call : Text) (now : ℕ) (t : Tables) → (mark_call_in_progress tenant call now t).1 ≡ t
unfolding mark_call_in_progress tenant_session
mark_call_in_progress-lost tenant call now t = elim (Option-cases (lookup tenant t)) [
  | inl n ↦ ground (arith, n)
  | inr (rows, s) ↦ elim (Option-cases (find_call call rows)) [
    | inl f ↦ ground (arith, s, f)
    | inr (q, f) ↦ ground (arith, s, f)
  ]
]

-- A call of a tenant that has tables, whose answer and hangup carry the same call id and tenant, the
-- answer with values that the columns take: whatever event its creation was, the call has a record at
-- the end. The record has the caller, the callee and the extension that it had at the answer, ended at
-- the hangup, lasted from its start to the hangup, and is completed exactly for a normal cause. If it
-- was the answer that made it, because no record was there, it started at the answer. The metadata of
-- the call's stream is gone.
pub call_lifecycle :
    (is_uuid : Text → Bool) (has_ip : Bool) (t0 t1 t2 : ℕ) (created answered closed : Dict Text)
    (w : World)
    → is_empty (call_id_of answered) ≡ false
    → is_empty (tenant_of answered) ≡ false
    → call_id_of closed ≡ call_id_of answered
    → tenant_of closed ≡ tenant_of answered
    → is_some (lookup (tenant_of answered) w.tables) ≡ true
    → fits_columns is_uuid (answered_row t1 answered none) ≡ true
    → let rung = handle_channel_create is_uuid has_ip t0 created w in
      let last = handle_channel_hangup t2 closed (handle_channel_answer is_uuid t1 answered rung) in
      let cause = or_none (header (codes "Hangup-Cause") closed) in
      let call = call_at (tenant_of answered) (call_id_of answered) in
      let found = answered_row t1 answered (call rung.tables) in
      ((r : CallRow) × (call last.tables ≡ some r)
        × (r.status ≡ (if is_normal cause then completed else failed))
        × (r.caller_number ≡ found.caller_number)
        × (r.callee_number ≡ found.callee_number)
        × (r.agent_sip_extension ≡ found.agent_sip_extension)
        × (r.ended_at ≡ some t2)
        × (r.duration_seconds ≡ lasted t2 r.started_at)
        × (call rung.tables ≡ none → r.started_at ≡ some t1))
      × (lookup (call_id_of answered) last.streams ≡ none)
unfolding handle_channel_answer handle_channel_hangup
call_lifecycle is_uuid has_ip t0 t1 t2 created answered closed w id tenant same_call same_tenant
      tables fit =
    let rung = handle_channel_create is_uuid has_ip t0 created w in
    let call = call_at (tenant_of answered) (call_id_of answered) in
    let here = create-keeps is_uuid has_ip t0 created w (tenant_of answered) tables in
    let before = track-tables true answered rung in
    let tracked = (track_trunk_call true answered rung).tables in
    let q = answered_row t1 answered (call rung.tables) in
    let at : call (answer_record is_uuid t1 answered tracked) ≡ some q =
      answer_lem is_uuid t1 answered tracked
        (ap (λ t. is_some (lookup (tenant_of answered) t)) before ∙ here) fit
      ∙ ap (λ t. some (answered_row t1 answered (call t))) before in
    let up = handle_channel_answer is_uuid t1 answered rung in
    let open_row : call up.tables ≡ some q = ground (arith, id, tenant, at) in
    let down = track_trunk_call false closed up in
    let still = track-tables false closed up in
    let cause = or_none (header (codes "Hangup-Cause") closed) in
    let (fine, row) =
      finalize_lem (tenant_of answered) (call_id_of answered) cause t2 down.tables q
        (ap call still ∙ open_row) in
    let erased = lookup-erase (call_id_of answered) (call_id_of answered) down.streams in
    (
      (
        ended t2 cause q,
        ground (arith, id, tenant, same_call, same_tenant, fine, row),
        refl,
        refl,
        refl,
        refl,
        refl,
        refl,
        λ new. ap (λ c. (answered_row t1 answered c).started_at) new,
      ),
      ground (
        arith,
        id,
        tenant,
        same_call,
        same_tenant,
        fine,
        erased,
        text_eq_refl (call_id_of answered),
      ),
    )
