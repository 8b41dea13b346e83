-- ===== src/Socket/Session/Ends.antt =====
-- How a session ends: the nil that stops RunSend, the removal from the session manager, and what a
-- panic of a goroutine leaves behind.
use rocommon.Prelude.{
  ℕ, ◌≡◌, List, [], ◌∷◌, ◌++◌, Bool, true, false, Option, none, some, arith, refl, ◌⊎◌, inl, inr,
  ap,
}
use rocommon.Socket.Session.{
  Session, start, close, can_put, put, recv_failed, put_nil, recv_ended, send_ended, take_out,
  send_turn-cases, message_handed, wait_ended, Step, open_tested, length_tested, send_refused,
  message_put, put_panicked, close_called, read_failed, nil_put, recv_done, recv_panicked, turned,
  send_panicked, both_ended, Steps, stay, later, Reach, Sender, Receiver,
}

abbrev pub has_nil : List (Option ℕ) → Bool
has_nil [] = false
has_nil (none ∷ q) = true
has_nil (some m ∷ q) = has_nil q

has_nil-append : (xs ys : List (Option ℕ)) → has_nil xs ≡ true → has_nil (xs ++ ys) ≡ true
has_nil-append [] ys h = cc
has_nil-append (none ∷ xs) ys h = refl
has_nil-append (some m ∷ xs) ys h = has_nil-append xs ys h

has_nil-append_nil : (xs : List (Option ℕ)) → has_nil (xs ++ none ∷ []) ≡ true
has_nil-append_nil [] = refl
has_nil-append_nil (none ∷ xs) = refl
has_nil-append_nil (some m ∷ xs) = has_nil-append_nil xs

-- Whether RunRecv is past its put of nil.
abbrev pub told : Receiver → Bool
told Receiver.notifying = true
told Receiver.ended = true
told _ = false

-- RunRecv leaves its loop only on a closed session, and then the queue holds the nil that ends
-- RunSend, until RunSend takes it. The session is removed, with its queue closed, only when both
-- have ended.
pub record Ending (s : Session) : Type 0 where
  pub told_nil : told s.receiver ≡ true → s.sender ≡ Sender.ranging → has_nil s.send_queue ≡ true
  pub told_closed : told s.receiver ≡ true → s.closed ≡ true
  pub leaving_closed : s.receiver ≡ Receiver.leaving → s.closed ≡ true
  pub removed_receiver : s.removed ≡ true → s.receiver ≡ Receiver.ended
  pub removed_sender : s.removed ≡ true → s.sender ≡ Sender.ended
  pub removed_queue : s.queue_closed ≡ s.removed

Step-Ending : {s t : Session} → Step s t → Ending s → Ending t
unfolding close recv_failed put_nil put recv_ended wait_ended send_ended message_handed take_out
    can_put
Step-Ending (open_tested m h) i = ground arith
Step-Ending (length_tested xs ys m e h) i = ground arith
Step-Ending (send_refused xs ys m e h) i = ground arith
Step-Ending {s} (message_put xs ys m e h) i = ground (arith, has_nil-append s.send_queue (m ∷ []))
Step-Ending (put_panicked xs ys m e h) i = ground arith
Step-Ending close_called i = ground arith
Step-Ending (read_failed h) i = ground arith
Step-Ending {s} (nil_put e h) i = ground (arith, has_nil-append_nil s.send_queue)
Step-Ending (recv_done h) i = ground arith
Step-Ending (recv_panicked h) i = ground arith
Step-Ending {s} (turned b {t} e h) i =
    send_turn-cases (λ u. Ending u) s t b (λ rest q. ground arith)
      (λ m rest q. ground (arith, ap has_nil q)) (λ m rest q. ground arith) h
Step-Ending {s} (send_panicked m rest e q) i = ground arith
Step-Ending (both_ended e f g) i = ground arith

pub Steps-Ending : {s t : Session} → Steps s t → Ending s → Ending t
Steps-Ending stay i = i
Steps-Ending (later r st) i = Step-Ending st (Steps-Ending r i)

Ending-start : (is_gate : Bool) → Ending (start is_gate)
unfolding start
Ending-start is_gate = record {
  told_nil = λ h. cc;
  told_closed = λ h. cc;
  leaving_closed = λ h. cc;
  removed_receiver = λ h. cc;
  removed_sender = λ h. cc;
  removed_queue = refl;
}

pub Ending-Reach : (is_gate : Bool) {s : Session} → Reach is_gate s → Ending s
unfolding Reach
Ending-Reach is_gate r = Steps-Ending r (Ending-start is_gate)

-- In every state of a session: RunSend is not left waiting once RunRecv has put its nil, as the nil is
-- still in the queue; RunRecv leaves its loop only on a closed session; and a session that is
-- removed from the manager is closed, with both goroutines ended and its queue closed.
pub Reach-Ending :
    (is_gate : Bool) (s : Session)
    → Reach is_gate s
    → (told s.receiver ≡ true → s.sender ≡ Sender.ranging → has_nil s.send_queue ≡ true)
      × (told s.receiver ≡ true → s.closed ≡ true)
      × (s.removed ≡ true
          → (s.closed ≡ true)
            × (s.receiver ≡ Receiver.ended)
            × (s.sender ≡ Sender.ended)
            × (s.queue_closed ≡ true))
Reach-Ending is_gate s r =
    let i = Ending-Reach is_gate r in (i.told_nil, i.told_closed, λ h. ground arith)

abbrev pub IsRecovered : Session → Type 0
IsRecovered s = (s.receiver ≡ Receiver.recovered) ⊎ (s.sender ≡ Sender.recovered)

Step-IsRecovered : {s t : Session} → Step s t → IsRecovered s → IsRecovered t
unfolding close recv_failed put_nil put recv_ended wait_ended send_ended message_handed take_out
    can_put
Step-IsRecovered (open_tested m h) i = i
Step-IsRecovered (length_tested xs ys m e h) i = i
Step-IsRecovered (send_refused xs ys m e h) i = i
Step-IsRecovered {s} (message_put xs ys m e h) i = i
Step-IsRecovered (put_panicked xs ys m e h) i = i
Step-IsRecovered close_called i = i
Step-IsRecovered (read_failed h) i = ground arith
Step-IsRecovered {s} (nil_put e h) i = ground arith
Step-IsRecovered (recv_done h) i = ground arith
Step-IsRecovered (recv_panicked h) i = inl refl
Step-IsRecovered {s} (turned b {t} e h) i =
    send_turn-cases (λ u. IsRecovered u) s t b (λ rest q. ground arith) (λ m rest q. ground arith)
      (λ m rest q. ground arith) h
Step-IsRecovered {s} (send_panicked m rest e q) i = inr refl
Step-IsRecovered (both_ended e f g) i = ground arith

Steps-IsRecovered : {s t : Session} → Steps s t → IsRecovered s → IsRecovered t
Steps-IsRecovered stay i = i
Steps-IsRecovered (later r st) i = Step-IsRecovered st (Steps-IsRecovered r i)

-- After a panic of RunRecv or RunSend, which they recover from, the session is never removed from the
-- session manager, whatever happens later.
pub Steps-recovered_kept :
    (is_gate : Bool) (s t : Session)
    → Reach is_gate s
    → IsRecovered s
    → Steps s t
    → t.removed ≡ false
Steps-recovered_kept is_gate s t r c later_steps =
    let i = Ending-Reach is_gate r in
    let j = Steps-Ending later_steps i in let d = Steps-IsRecovered later_steps c in ground arith
