-- ===== src/Socket/Session.antt =====
-- socket/tcp/session.go (and socket/websocket/session.go, where the same functions stand): a session's
-- send queue, its two goroutines, and their interleaving with the callers of Send and Close. A
-- message is a number and a nil message `none`.
pub mod Queue
pub mod Ends
pub mod Shutdown
mod Tests
use mathlib.Core.Option.{some-injective, some-ne-none}
use mathlib.Core.Path.{subst}
use rocommon.Prelude.{
  refl, sym, ℕ, ◌≡◌, List, [], ◌∷◌, ◌++◌, Bool, true, false, Option, none, some, ltb, length, not,
  ◌&&◌, if◌then◌else◌, ◌⊎◌, ◌+◌,
}

-- Where RunRecv stands: in its loop, before the put of nil that its failed read leads to, before
-- the event SessionClosed, past `exitWg.Done()`, or recovered from a panic, which leaves the
-- function with no `exitWg.Done()`.
pub data Receiver : Type 0 where
  reading leaving notifying ended recovered : Receiver

-- Where RunSend stands.
pub data Sender : Type 0 where
  ranging ended recovered : Sender

-- `entering` are the messages of callers between the two tests of Send, and `pending` of those
-- between the tests and the put;
-- `panics` counts the callers that panicked there. `entered`, `taken` and `handed` are the
-- messages that were put into the queue, taken out of it and handed to SendMsg, which gave no error:
-- it gives none either for a message that it drops, since it is too long or has no writer.
pub record Session : Type 0 where
  pub closed : Bool
  pub send_queue : List (Option ℕ)
  pub capacity : ℕ
  pub queue_closed : Bool
  pub conn_open : Bool
  pub receiver : Receiver
  pub sender : Sender
  pub removed : Bool
  pub entering : List (Option ℕ)
  pub pending : List (Option ℕ)
  pub panics : ℕ
  pub entered : List (Option ℕ)
  pub taken : List (Option ℕ)
  pub handed : List ℕ

-- `Start`; `is_gate` says that the node's name is "gate".
pub start : Bool → Session
start is_gate = record {
  closed = false;
  send_queue = [];
  capacity = (if is_gate then 200 else 2000) + 1;
  queue_closed = false;
  conn_open = true;
  receiver = Receiver.reading;
  sender = Sender.ranging;
  removed = false;
  entering = [];
  pending = [];
  panics = 0;
  entered = [];
  taken = [];
  handed = [];
}

-- `Close`: only the first call closes the connection.
pub close : Session → Session
close s = record s { closed = true; conn_open = if s.closed then s.conn_open else false }

-- The tests of `Send`; the second is on the package's `sendQueueMaxLen`.
pub is_open : Session → Bool
is_open s = not s.closed

pub below_max_len : Session → Bool
below_max_len s = ltb (length s.send_queue) 2000

pub can_send : Session → Bool
unfolding is_open below_max_len
can_send s = is_open s && below_max_len s

-- Whether a put goes on at once.
pub can_put : Session → Bool
can_put s = not s.queue_closed && ltb (length s.send_queue) s.capacity

pub put : Session → Option ℕ → Session
put s m = record s { send_queue = s.send_queue ++ m ∷ []; entered = s.entered ++ m ∷ [] }

-- What RunRecv does when its read fails: the flag,
pub recv_failed : Session → Session
recv_failed s = record s { closed = true; receiver = Receiver.leaving }

-- the put of nil that ends RunSend,
pub put_nil : Session → Session
unfolding put
put_nil s = record (put s none) { receiver = Receiver.notifying }

-- and, after the event SessionClosed, `exitWg.Done()`.
pub recv_ended : Session → Session
recv_ended s = record s { receiver = Receiver.ended }

-- The end of RunSend after its loop.
pub send_ended : Session → Session
send_ended s = record s { conn_open = false; sender = Sender.ended }

-- What one turn of RunSend takes from the queue, before SendMsg.
pub take_out : Session → Option ℕ → List (Option ℕ) → Session
take_out s m rest = record s { send_queue = rest; taken = s.taken ++ m ∷ [] }

-- The message is handed to SendMsg, which gives no error.
pub message_handed : Session → ℕ → List (Option ℕ) → Session
unfolding take_out
message_handed s m rest = record (take_out s (some m) rest) { handed = s.handed ++ m ∷ [] }

-- One turn of RunSend on the queue's content: nil ends the loop, and so does an error of SendMsg,
-- which `send_ok` tells. An empty queue makes it wait.
pub turn_on : Session → Bool → List (Option ℕ) → Option Session
turn_on s send_ok [] = none
turn_on s send_ok (none ∷ rest) = some (send_ended (take_out s none rest))
turn_on s true (some m ∷ rest) = some (message_handed s m rest)
turn_on s false (some m ∷ rest) = some (send_ended (take_out s (some m) rest))

pub send_turn : Session → Bool → Option Session
unfolding turn_on
send_turn s send_ok = turn_on s send_ok s.send_queue

-- What holds after each outcome of a turn holds after the turn.
pub send_turn-cases :
    (P : Session → Type 0) (s t : Session) (b : Bool)
    → ((rest : List (Option ℕ))
        → s.send_queue ≡ none ∷ rest
        → P (send_ended (take_out s none rest)))
    → ((m : ℕ) (rest : List (Option ℕ))
        → s.send_queue ≡ some m ∷ rest
        → P (message_handed s m rest))
    → ((m : ℕ) (rest : List (Option ℕ))
        → s.send_queue ≡ some m ∷ rest
        → P (send_ended (take_out s (some m) rest)))
    → send_turn s b ≡ some t
    → P t
unfolding send_turn
send_turn-cases P s t b on_nil on_sent on_error h = by_content s.send_queue refl b h
  where
    by_content :
        (q : List (Option ℕ)) → s.send_queue ≡ q → (b : Bool) → turn_on s b q ≡ some t → P t
    by_content [] e b h = absurd (some-ne-none _ (sym h))
    by_content (none ∷ rest) e b h = subst P (some-injective _ _ h) (on_nil rest e)
    by_content (some m ∷ rest) e true h = subst P (some-injective _ _ h) (on_sent m rest e)
    by_content (some m ∷ rest) e false h = subst P (some-injective _ _ h) (on_error m rest e)

-- What the goroutine of `Start` does after `exitWg.Wait()`.
pub wait_ended : Session → Session
wait_ended s = record s { queue_closed = true; removed = true }

-- One step of the program: a caller of Send passes its first test, then its second or gives up, puts
-- its message, or panics in the
-- put on a closed queue; a caller of Close; the two goroutines, each of which can panic in what it
-- calls; and the end of both. A read that succeeds changes nothing here.
pub data Step (s : Session) : Session → Type 0 where
  open_tested : (m : Option ℕ) → is_open s ≡ true → Step s (record s { entering = m ∷ s.entering })
  length_tested :
      (xs ys : List (Option ℕ)) (m : Option ℕ)
      → s.entering ≡ xs ++ m ∷ ys
      → below_max_len s ≡ true
      → Step s (record s { entering = xs ++ ys; pending = m ∷ s.pending })
  send_refused :
      (xs ys : List (Option ℕ)) (m : Option ℕ)
      → s.entering ≡ xs ++ m ∷ ys
      → below_max_len s ≡ false
      → Step s (record s { entering = xs ++ ys })
  message_put :
      (xs ys : List (Option ℕ)) (m : Option ℕ)
      → s.pending ≡ xs ++ m ∷ ys
      → can_put s ≡ true
      → Step s (put (record s { pending = xs ++ ys }) m)
  put_panicked :
      (xs ys : List (Option ℕ)) (m : Option ℕ)
      → s.pending ≡ xs ++ m ∷ ys
      → s.queue_closed ≡ true
      → Step s (record s { pending = xs ++ ys; panics = s.panics + 1 })
  close_called : Step s (close s)
  read_failed : s.receiver ≡ Receiver.reading → Step s (recv_failed s)
  nil_put : s.receiver ≡ Receiver.leaving → can_put s ≡ true → Step s (put_nil s)
  recv_done : s.receiver ≡ Receiver.notifying → Step s (recv_ended s)
  recv_panicked :
      s.receiver ≡ Receiver.reading ⊎ s.receiver ≡ Receiver.notifying
      → Step s (record s { receiver = Receiver.recovered })
  turned :
      (send_ok : Bool) {t : Session}
      → s.sender ≡ Sender.ranging
      → send_turn s send_ok ≡ some t
      → Step s t
  send_panicked :
      (m : ℕ) (rest : List (Option ℕ))
      → s.sender ≡ Sender.ranging
      → s.send_queue ≡ some m ∷ rest
      → Step s (record (take_out s (some m) rest) { sender = Sender.recovered })
  both_ended :
      s.receiver ≡ Receiver.ended
      → s.sender ≡ Sender.ended
      → s.queue_closed ≡ false
      → Step s (wait_ended s)

-- Any number of steps.
pub data Steps (s : Session) : Session → Type 0 where
  stay : Steps s s
  later : {t u : Session} → Steps s t → Step t u → Steps s u

-- The states of a session after `Start`.
pub Reach : Bool → Session → Type 0
Reach is_gate s = Steps (start is_gate) s
