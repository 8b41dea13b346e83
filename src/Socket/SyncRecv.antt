-- ===== src/Socket/SyncRecv.antt =====
-- syncrecv.go: waiting for the connection of a session. The events that the processor hands over, one
-- after the other, come through a channel without a buffer.
use rocommon.Prelude.{ℕ, List, [], ◌∷◌, Option, none, some, ◌≡◌, refl}

-- An event: SessionConnected of a session, or another.
pub data SyncEvent : Type 0 where
  session_connected : ℕ → SyncEvent
  other_event : SyncEvent

-- NetSyncRecv, by its session.
pub record NetSyncRecv : Type 0 where
  pub sess : Option ℕ

-- `Recv`: it waits for the first event, and calls back with it.
recv :
    (SyncEvent → NetSyncRecv → Option NetSyncRecv)
    → List SyncEvent
    → NetSyncRecv
    → Option (NetSyncRecv × List SyncEvent)
recv cb [] a = none
recv cb (ev ∷ evs) a = elim (cb ev a) [ none ↦ none | some b ↦ some (b, evs) ]

-- The callback of `WaitMsg`. None: it does not call Done, so that the wait after it does not end.
connected_only : SyncEvent → NetSyncRecv → Option NetSyncRecv
connected_only (session_connected s) a = some (record a { sess = some s })
connected_only other_event a = none

-- `WaitMsg`, of the events that will come.
unfoldable pub wait_msg : List SyncEvent → NetSyncRecv → Option (NetSyncRecv × List SyncEvent)
unfolding recv connected_only
wait_msg evs a = recv connected_only evs a

-- WaitMsg returns with the session of the first event if that is SessionConnected; after any other first
-- event it waits for ever, also when a SessionConnected comes later.
wait_msg_first :
    (evs : List SyncEvent) (a : NetSyncRecv) (s : ℕ)
    → (wait_msg (session_connected s ∷ evs) a ≡ some (record { sess = some s }, evs))
      × (wait_msg (other_event ∷ evs) a ≡ none)
unfolding wait_msg recv connected_only
wait_msg_first evs a s = (refl, refl)
