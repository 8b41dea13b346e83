-- ===== src/Socket/Dispatch.antt =====
-- socket/procrpc.go: the table of processors, what `NetProcessorRPC` does with an event, the chain of its
-- hooks, and whether a callback is posted to the queue of the session's node or called at once. Hooks,
-- callbacks and processors are arguments; nil is `none`.
mod Tests
use rocommon.Prelude.{
  ℕ, List, [], ◌∷◌, ◌++◌, Option, none, some, ◌≡◌, refl, Bool, true, false, if◌then◌else◌,
}
use rocommon.Prelude.Outcome.{Outcome, ok, panic, ◌>>=◌}
use rocommon.Text.{String, ◌=s◌}

module _ {A : Type 0} where
  -- `MultiTCPEventHook.InEvent` and `OutEvent`: a hook that gives nil ends the chain.
  pub multi_event_hook : List (Option A → Option A) → Option A → Option A
  multi_event_hook [] e = e
  multi_event_hook (hook ∷ hooks) e = elim (hook e) [
    | none ↦ none
    | some next ↦ multi_event_hook hooks (some next)
  ]

  -- The hook of a processor, if it has one.
  hooked : Option (Option A → Option A) → Option A → Option A
  hooked none e = e
  hooked (some hook) e = hook e

  -- `TCPEventHook.InEvent` and `OutEvent`, with the resolution of remote calls, which is not written yet.
  pub tcp_event_hook : Option A → Option A
  tcp_event_hook e = e

  -- `ProcEvent`: the event that the callback is given.
  pub proc_event : Option (Option A → Option A) → Option (A → ℕ) → Option A → Option ℕ
  unfolding hooked
  proc_event hooker none e = none
  proc_event hooker (some callback) e = elim (hooked hooker e) [
    | none ↦ none
    | some next ↦ some (callback next)
  ]

  -- The end of `SendMsg`: an event that a hook dropped has no session.
  sent : (A → ℕ) → Option A → Outcome ℕ
  sent on_send_msg none = panic
  sent on_send_msg (some e) = ok (on_send_msg e)

  -- `SendMsg`, with the error that `OnSendMsg` gives (0 is nil).
  pub send_msg : Option (Option A → Option A) → Option (A → ℕ) → Option A → Outcome ℕ
  unfolding hooked sent
  send_msg hooker none ev = ok 0
  send_msg hooker (some on_send_msg) ev = sent on_send_msg (hooked hooker ev)

  -- `ReadMsg`: an error where no processor is set.
  pub read_msg : Option (ℕ → A) → ℕ → Option A
  read_msg none session = none
  read_msg (some on_recv_msg) session = some (on_recv_msg session)

  -- `RegisterProcessRPC`, on the table of processors.
  find_processor : List (String × A) → String → Option A
  find_processor [] proc_name = none
  find_processor ((name, f) ∷ ps) proc_name =
      if name =s proc_name then some f else find_processor ps proc_name

  registered : List (String × A) → String → A → Option A → Outcome (List (String × A))
  registered ps proc_name f none = ok ((proc_name, f) ∷ ps)
  registered ps proc_name f (some g) = panic

  pub register_process_rpc : List (String × A) → String → A → Outcome (List (String × A))
  unfolding registered find_processor
  register_process_rpc ps proc_name f = registered ps proc_name f (find_processor ps proc_name)

  -- `SetProcessorRPC`: the processor that is applied to the node.
  chosen : Option A → Outcome A
  chosen none = panic
  chosen (some f) = ok f

  pub set_processor_rpc : List (String × A) → String → Outcome A
  unfolding chosen find_processor
  set_processor_rpc ps proc_name = chosen (find_processor ps proc_name)

-- What becomes of a callback: it is posted, called at once, or dropped.
pub data QueueCall : Type 0 where
  posted called dropped : QueueCall

-- `SessionQueueCall`, of whether there is a session, and whether its node has a queue.
pub session_queue_call : Bool → Bool → QueueCall
session_queue_call false has_queue = QueueCall.dropped
session_queue_call true true = QueueCall.posted
session_queue_call true false = QueueCall.called

-- `QueueEventCall`: no callback, no call.
pub queue_event_call : Bool → Bool → Bool → QueueCall
unfolding session_queue_call
queue_event_call false has_session has_queue = QueueCall.dropped
queue_event_call true has_session has_queue = session_queue_call has_session has_queue
