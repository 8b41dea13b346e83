-- ===== src/Socket/Session/Queue.antt =====
-- The send queue of a session: its order, its bound and the nil that ends RunSend.
use rocommon.Prelude.{
  ℕ, ◌≡◌, List, [], ◌∷◌, ◌++◌, Bool, true, false, Option, none, some, length, arith, map,
  append_assoc, ◌≤◌, length-append, if◌then◌else◌, refl, ap, sym, ◌∙◌,
}
use rocommon.Socket.Session.{
  can_send, Session, start, close, can_put, put, recv_failed, put_nil, recv_ended, send_ended,
  take_out, wait_ended, send_turn-cases, message_handed, Step, open_tested, length_tested,
  send_refused, message_put, put_panicked, close_called, read_failed, nil_put, recv_done,
  recv_panicked, turned, send_panicked, both_ended, Steps, stay, later, Reach, Sender,
}

-- What was put into the queue is what was taken out and what stands in it, which its capacity bounds.
abbrev pub InOrder : Session → Type 0
InOrder s = (s.entered ≡ s.taken ++ s.send_queue) × (length s.send_queue ≤ s.capacity)

InOrder-put : (s : Session) (m : Option ℕ) → InOrder s → can_put s ≡ true → InOrder (put s m)
unfolding put can_put
InOrder-put s m i h = (
  ap (λ q. q ++ m ∷ []) (i.0) ∙ append_assoc s.taken s.send_queue (m ∷ []),
  ground (arith, length-append s.send_queue (m ∷ [])),
)

InOrder-take_out :
    (s : Session) (m : Option ℕ) (rest : List (Option ℕ))
    → s.send_queue ≡ m ∷ rest
    → InOrder s
    → InOrder (take_out s m rest)
unfolding take_out
InOrder-take_out s m rest e i = (
  i.0 ∙ ap (λ q. s.taken ++ q) e ∙ sym (append_assoc s.taken (m ∷ []) rest),
  omega (arith, i.1, ap length e),
)

Step-InOrder : {s t : Session} → Step s t → InOrder s → InOrder t
unfolding close recv_failed put_nil put recv_ended wait_ended send_ended message_handed take_out
    can_put
Step-InOrder (open_tested m h) i = i
Step-InOrder (length_tested xs ys m e h) i = i
Step-InOrder (send_refused xs ys m e h) i = i
Step-InOrder {s} (message_put xs ys m e h) i = InOrder-put (record s { pending = xs ++ ys }) m i h
Step-InOrder (put_panicked xs ys m e h) i = i
Step-InOrder close_called i = i
Step-InOrder (read_failed h) i = i
Step-InOrder {s} (nil_put e h) i = InOrder-put s none i h
Step-InOrder (recv_done h) i = i
Step-InOrder (recv_panicked h) i = i
Step-InOrder {s} (turned b {t} e h) i =
    send_turn-cases (λ u. InOrder u) s t b (λ rest q. InOrder-take_out s none rest q i)
      (λ m rest q. InOrder-take_out s (some m) rest q i)
      (λ m rest q. InOrder-take_out s (some m) rest q i) h
Step-InOrder {s} (send_panicked m rest e q) i = InOrder-take_out s (some m) rest q i
Step-InOrder (both_ended e f g) i = i

pub Steps-InOrder : {s t : Session} → Steps s t → InOrder s → InOrder t
Steps-InOrder stay i = i
Steps-InOrder (later r st) i = Step-InOrder st (Steps-InOrder r i)

-- The messages handed over are the ones taken out, in their order, but for at most the last one, and
-- for none while RunSend is in its loop.
abbrev pub InTurn : Session → Type 0
InTurn s =
    (e : List (Option ℕ)) × (s.taken ≡ map some s.handed ++ e)
    × (length e ≤ 1)
    × (s.sender ≡ Sender.ranging → e ≡ [])

map_snoc : (xs : List ℕ) (m : ℕ) → map some xs ++ some m ∷ [] ≡ map some (xs ++ m ∷ []) ++ []
map_snoc [] m = refl
map_snoc (x ∷ xs) m = ap (λ q. some x ∷ q) (map_snoc xs m)

InTurn-taken :
    (s : Session) (m : Option ℕ)
    → s.sender ≡ Sender.ranging
    → InTurn s
    → s.taken ++ m ∷ [] ≡ map some s.handed ++ m ∷ []
InTurn-taken s m h (e, split, one, none_left) =
    ap (λ q. q ++ m ∷ []) (split ∙ ap (λ q. map some s.handed ++ q) (none_left h))
    ∙ append_assoc (map some s.handed) [] (m ∷ [])

InTurn-handed :
    (s : Session) (m : ℕ)
    → s.sender ≡ Sender.ranging
    → InTurn s
    → s.taken ++ some m ∷ [] ≡ map some (s.handed ++ m ∷ []) ++ []
InTurn-handed s m h t = InTurn-taken s (some m) h t ∙ map_snoc s.handed m

Step-InTurn : {s t : Session} → Step s t → InTurn s → InTurn t
unfolding close recv_failed put_nil put recv_ended wait_ended send_ended message_handed take_out
    can_put
Step-InTurn (open_tested m h) i = i
Step-InTurn (length_tested xs ys m e h) i = i
Step-InTurn (send_refused xs ys m e h) i = i
Step-InTurn {s} (message_put xs ys m e h) i = i
Step-InTurn (put_panicked xs ys m e h) i = i
Step-InTurn close_called i = i
Step-InTurn (read_failed h) i = i
Step-InTurn {s} (nil_put e h) i = i
Step-InTurn (recv_done h) i = i
Step-InTurn (recv_panicked h) i = i
Step-InTurn {s} (turned b {t} e h) i =
    send_turn-cases (λ u. InTurn u) s t b
      (λ rest q. (none ∷ [], InTurn-taken s none e i, omega arith, λ f. cc))
      (λ m rest q. ([], InTurn-handed s m e i, omega arith, λ f. refl))
      (λ m rest q. (some m ∷ [], InTurn-taken s (some m) e i, omega arith, λ f. cc)) h
Step-InTurn {s} (send_panicked m rest e q) i =
    (some m ∷ [], InTurn-taken s (some m) e i, omega arith, λ f. cc)
Step-InTurn (both_ended e f g) i = i

pub Steps-InTurn : {s t : Session} → Steps s t → InTurn s → InTurn t
Steps-InTurn stay i = i
Steps-InTurn (later r st) i = Step-InTurn st (Steps-InTurn r i)

Step-capacity : {s t : Session} → Step s t → t.capacity ≡ s.capacity
unfolding close recv_failed put_nil put recv_ended wait_ended send_ended message_handed take_out
Step-capacity {s} (turned b {t} e h) =
    send_turn-cases (λ u. u.capacity ≡ s.capacity) s t b (λ rest q. refl) (λ m rest q. refl)
      (λ m rest q. refl) h
Step-capacity (open_tested m h) = refl
Step-capacity (length_tested xs ys m e h) = refl
Step-capacity (send_refused xs ys m e h) = refl
Step-capacity (message_put xs ys m e h) = refl
Step-capacity (put_panicked xs ys m e h) = refl
Step-capacity close_called = refl
Step-capacity (read_failed h) = refl
Step-capacity (nil_put e h) = refl
Step-capacity (recv_done h) = refl
Step-capacity (recv_panicked h) = refl
Step-capacity (send_panicked m rest e q) = refl
Step-capacity (both_ended e f g) = refl

pub Steps-capacity : {s t : Session} → Steps s t → t.capacity ≡ s.capacity
Steps-capacity stay = refl
Steps-capacity (later r st) = Step-capacity st ∙ Steps-capacity r

-- In every state of a session the messages put into its queue, in the order of the puts, are the
-- messages handed to SendMsg with no error, then at most one at which RunSend stopped, then the queue;
-- while RunSend is in its loop there is no such one. The queue is within its capacity.
pub Reach-InOrder :
    (is_gate : Bool) (s : Session)
    → Reach is_gate s
    → (e : List (Option ℕ)) × (s.entered ≡ map some s.handed ++ e ++ s.send_queue)
      × (length e ≤ 1)
      × (s.sender ≡ Sender.ranging → e ≡ [])
      × (length s.send_queue ≤ (if is_gate then 201 else 2001))
unfolding Reach start
Reach-InOrder is_gate s r =
    let i = Steps-InOrder r (refl, omega arith) in
    let (e, split, one, none_left) = Steps-InTurn r ([], refl, omega arith, λ h. refl) in
    (
      e,
      i.0 ∙ ap (λ q. q ++ s.send_queue) split,
      one,
      none_left,
      grind (arith, i.1, Steps-capacity r),
    )

-- A send that passes the tests of Send on a session of a node not named "gate" finds room in the
-- queue. On a gate's session the test is not on its capacity: with 201 messages in the queue and the
-- session open, a send passes the tests and waits in its put.
pub can_send-can_put :
    (is_gate : Bool) (s : Session)
    → Reach is_gate s
    → (is_gate ≡ false → s.queue_closed ≡ false → can_send s ≡ true → can_put s ≡ true)
      × (is_gate ≡ true
          → s.closed ≡ false
          → length s.send_queue ≡ 201
          → (can_send s ≡ true) × (can_put s ≡ false))
unfolding Reach start can_send can_put
can_send-can_put is_gate s r =
    let c = Steps-capacity r in (λ g q h. ground arith, λ g q h. (ground arith, ground arith))
