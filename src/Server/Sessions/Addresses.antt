-- ===== src/Server/Sessions/Addresses.antt =====
-- The table of addresses against the table of sessions.
use aero_nyx_private_ed.Base.HashMap
use aero_nyx_private_ed.Base.HashMap.{
  HashMap, Distinct, apply_to, get-insert, get-modify, get-remove, insert-Distinct, modify-Distinct,
  remove-Distinct,
}
use aero_nyx_private_ed.Base.{
  ℕ, ◌≡◌, ◌≢◌, List, [], ◌∷◌, none, some, Text, text_eq, text_iff, text_self, list_beq, ◌==◌,
  if◌then◌else◌, arith, Option-cases, Bool-cases, inl, inr,
}
use aero_nyx_private_ed.Server.Sessions.{
  ClientSession, SessionManager, new, add_session, remove_session, remove_sessions, touch_session,
  get_session_by_ip, update_activity,
}

-- Every session stands under its identifier, and every address leads to a session that has it.
pub record IsConsistent (m : SessionManager) : Type 0 where
  pub distinct : Distinct m.sessions
  pub identified : (id : Text) (s : ClientSession) → HashMap.get m.sessions id ≡ some s → s.id ≡ id
  pub leads :
      (ip id : Text)
      → HashMap.get m.ip_sessions ip ≡ some id
      → (s : ClientSession) × (HashMap.get m.sessions id ≡ some s) × (s.ip_address ≡ ip)

-- Every session is found under its address.
abbrev pub IsReachable : SessionManager → Type 0
IsReachable m =
    (id : Text) (s : ClientSession)
    → HashMap.get m.sessions id ≡ some s
    → HashMap.get m.ip_sessions s.ip_address ≡ some id

pub new-IsConsistent : (timeout : ℕ) → IsConsistent (new timeout)
unfolding new HashMap.get
new-IsConsistent timeout = record {
  distinct = tt;
  identified = λ id s h. cc;
  leads = λ ip id h. cc;
}

pub add_session-IsConsistent :
    (m : SessionManager) (s : ClientSession)
    → IsConsistent m
    → HashMap.get m.sessions s.id ≡ none
    → IsConsistent (add_session m s)
unfolding add_session
add_session-IsConsistent m s c fresh = record {
  distinct = insert-Distinct m.sessions s.id s c.distinct;
  identified = λ id t h.
      ground (arith, get-insert m.sessions s.id id s, text_iff s.id id, c.identified id t);
  leads = λ ip id h. elim (Bool-cases (list_beq s.ip_address ip)) [
    | inl same ↦ (
      s,
      ground (
        arith,
        get-insert m.sessions s.id id s,
        get-insert m.ip_sessions s.ip_address ip s.id,
        text_self id,
      ),
      (text_iff s.ip_address ip).0 same,
    )
    | inr other ↦
        let (t, live, has) =
          c.leads ip id (ground (arith, get-insert m.ip_sessions s.ip_address ip s.id)) in
        (t, ground (arith, get-insert m.sessions s.id id s, text_iff s.id id), has)
  ];
}

pub remove_session-IsConsistent :
    (m : SessionManager) (id : Text) → IsConsistent m → IsConsistent (remove_session m id)
unfolding remove_session
remove_session-IsConsistent m id c = elim (Option-cases (HashMap.get m.sessions id)) [
  | inl absent ↦ rw (absent, remove_session) c
  | inr (s, found) ↦
      let result : IsConsistent (record m {
        sessions = HashMap.remove m.sessions id;
        ip_sessions = HashMap.remove m.ip_sessions s.ip_address;
      }) =
        record {
          distinct = remove-Distinct m.sessions id c.distinct;
          identified = λ j t h. ground (arith, get-remove m.sessions id j, c.identified j t);
          leads = λ ip j h.
              let (t, live, has) =
                c.leads ip j (ground (arith, get-remove m.ip_sessions s.ip_address ip)) in
              (
                t,
                ground (
                  arith,
                  get-remove m.sessions id j,
                  get-remove m.ip_sessions s.ip_address ip,
                  text_iff id j,
                  text_iff s.ip_address ip,
                ),
                has,
              );
        } in
      rw (found, remove_session) result
]

pub touch_session-IsConsistent :
    (m : SessionManager) (id : Text) (now : ℕ)
    → IsConsistent m
    → IsConsistent (touch_session m id now).1
unfolding touch_session
touch_session-IsConsistent m id now c = elim (Option-cases (HashMap.get m.sessions id)) [
  | inl absent ↦ rw (absent, touch_session) c
  | inr (s, found) ↦
      let touched = λ (j : Text). get-modify m.sessions id j (λ x. update_activity x now) in
      let result : IsConsistent
          (record m { sessions = HashMap.modify m.sessions id (λ x. update_activity x now) }) =
        record {
          distinct = modify-Distinct m.sessions id (λ x. update_activity x now) c.distinct;
          identified = λ j t h. elim (Option-cases (HashMap.get m.sessions j)) [
            | inl gone ↦ absurd (ground (arith, touched j))
            | inr (u, live) ↦ ground (arith, touched j, c.identified j u live)
          ];
          leads = λ ip j h.
              let (t, live, has) = c.leads ip j h in
              (
                if id == j then update_activity t now else t,
                ground (arith, touched j, live),
                ground (arith, has),
              );
        } in
      rw (found, touch_session) result
]

pub remove_sessions-IsConsistent :
    (m : SessionManager) (ids : List Text) → IsConsistent m → IsConsistent (remove_sessions m ids)
unfolding remove_sessions
remove_sessions-IsConsistent m [] c = c
remove_sessions-IsConsistent m (id ∷ ids) c =
    remove_sessions-IsConsistent (remove_session m id) ids (remove_session-IsConsistent m id c)

-- No session has the identifier of the new one, nor its address.
pub record IsFresh (m : SessionManager) (s : ClientSession) : Type 0 where
  pub id_free : HashMap.get m.sessions s.id ≡ none
  pub address_free :
      (id : Text) (t : ClientSession)
      → HashMap.get m.sessions id ≡ some t
      → t.ip_address ≢ s.ip_address

pub add_session-IsReachable :
    (m : SessionManager) (s : ClientSession)
    → IsReachable m
    → IsFresh m s
    → IsReachable (add_session m s)
unfolding add_session
add_session-IsReachable m s r fresh id t h = elim (Bool-cases (list_beq s.id id)) [
  | inl same ↦ ground (
    arith,
    get-insert m.sessions s.id id s,
    get-insert m.ip_sessions s.ip_address t.ip_address s.id,
    text_iff s.id id,
    text_self s.ip_address,
  )
  | inr other ↦
      let live : HashMap.get m.sessions id ≡ some t =
        ground (arith, get-insert m.sessions s.id id s) in
      let away : t.ip_address ≢ s.ip_address = fresh.address_free id t live in
      ground (
        arith,
        r id t live,
        away,
        get-insert m.ip_sessions s.ip_address t.ip_address s.id,
        text_iff s.ip_address t.ip_address,
      )
]

pub remove_session-IsReachable :
    (m : SessionManager) (id : Text) → IsReachable m → IsReachable (remove_session m id)
unfolding remove_session
remove_session-IsReachable m id r j t h = elim (Option-cases (HashMap.get m.sessions id)) [
  | inl absent ↦ ground (arith, absent, r j t)
  | inr (s, found) ↦ ground (
    arith,
    found,
    get-remove m.sessions id j,
    r j t,
    r id s found,
    get-remove m.ip_sessions s.ip_address t.ip_address,
    text_iff s.ip_address t.ip_address,
    text_iff id j,
  )
]

pub remove_sessions-IsReachable :
    (m : SessionManager) (ids : List Text) → IsReachable m → IsReachable (remove_sessions m ids)
unfolding remove_sessions
remove_sessions-IsReachable m [] r = r
remove_sessions-IsReachable m (id ∷ ids) r =
    remove_sessions-IsReachable (remove_session m id) ids (remove_session-IsReachable m id r)

pub touch_session-IsReachable :
    (m : SessionManager) (id : Text) (now : ℕ)
    → IsReachable m
    → IsReachable (touch_session m id now).1
unfolding touch_session
touch_session-IsReachable m id now r j t h = elim (Option-cases (HashMap.get m.sessions id)) [
  | inl absent ↦ ground (arith, absent, r j t)
  | inr (s, found) ↦ elim (Option-cases (HashMap.get m.sessions j)) [
    | inl gone ↦
        absurd (ground (arith, found, get-modify m.sessions id j (λ x. update_activity x now)))
    | inr (u, live) ↦
        ground (arith, found, r j u live, get-modify m.sessions id j (λ x. update_activity x now))
  ]
]

-- The lookup by address finds live sessions that have the address.
pub get_session_by_ip-address :
    (m : SessionManager) (ip : Text) (s : ClientSession)
    → IsConsistent m
    → get_session_by_ip m ip ≡ some s
    → (s.ip_address ≡ ip) × (HashMap.get m.sessions s.id ≡ some s)
unfolding get_session_by_ip
get_session_by_ip-address m ip s c h = elim (Option-cases (HashMap.get m.ip_sessions ip)) [
  | inl none_there ↦ absurd (ground (arith, none_there))
  | inr (id, mapped) ↦
      let (t, live, has) = c.leads ip id mapped in
      ground (arith, mapped, live, has, c.identified id t live)
]
