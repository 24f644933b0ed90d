-- ===== src/Terminals/Manager/Race.antt =====
-- Two creations that overlap.
use aero_nyx_private_ed.Base.HashMap
use aero_nyx_private_ed.Base.HashMap.{HashMap, get-insert}
use aero_nyx_private_ed.Base.{
  ℕ, ◌+◌, ◌<◌, ◌≡◌, ◌≢◌, none, Text, text_eq, text_iff, text_self, ok, arith,
}
use aero_nyx_private_ed.Terminals.Manager.{
  TerminalManager, count_user_sessions, admit, store, new_session,
}
use aero_nyx_private_ed.Terminals.Manager.Limit.{store-count}

store-get :
    (m : TerminalManager) (id id' user : Text) (rows cols now : ℕ)
    → id ≢ id'
    → HashMap.get m.sessions id' ≡ none
    → HashMap.get (store m id user rows cols now).sessions id' ≡ none
unfolding store
store-get m id id' user rows cols now apart absent = ground (
  arith,
  apart,
  text_iff id id',
  get-insert m.sessions id id' (new_session user rows cols now),
  absent,
)

-- Two creations for one user that are both admitted before either is stored take the user over the
-- limit, where one place was left.
pub admitted_twice :
    (m : TerminalManager) (id id' user : Text) (rows cols now : ℕ)
    → id ≢ id'
    → count_user_sessions m user + 1 ≡ m.max_sessions_per_user
    → HashMap.get m.sessions id ≡ none
    → HashMap.get m.sessions id' ≡ none
    → (admit m id user ≡ ok tt)
      × (admit m id' user ≡ ok tt)
      × (m.max_sessions_per_user
          < count_user_sessions (store (store m id user rows cols now) id' user rows cols now) user)
admitted_twice m id id' user rows cols now apart last absent absent' =
    let first = store m id user rows cols now in
    let c = store-count m id user user rows cols now absent in
    let still = store-get m id id' user rows cols now apart absent' in
    let c' = store-count first id' user user rows cols now still in
    (
      unfold admit in ground (arith, absent, last),
      unfold admit in ground (arith, absent', last),
      ground (arith, c, c', last, text_self user),
    )
