-- ===== src/Socket/Session/Shutdown.antt =====
-- Which ends of a session can be reached: its removal, a receiver that waits for ever, and a caller of
-- Send that panics.
use mathlib.Core.Bool.{false≢true}
use rocommon.Prelude.{
  ℕ, ◌≡◌, ◌≢◌, List, [], ◌∷◌, ◌++◌, Bool, true, false, Option, none, some, length, arith, ◌≤◌, ◌+◌,
  refl, ap, sym, ◌∙◌,
}
use rocommon.Socket.Session.{
  Session, close, can_put, can_send, is_open, below_max_len, put, recv_failed, put_nil, recv_ended,
  send_ended, take_out, turn_on, message_handed, send_turn, wait_ended, Step, open_tested,
  length_tested, send_refused, message_put, put_panicked, close_called, read_failed, nil_put,
  recv_done, recv_panicked, turned, send_panicked, both_ended, Steps, stay, later, Reach, Sender,
  Receiver,
}
use rocommon.Socket.Session.Ends.{has_nil, told, Ending, Ending-Reach}

Steps-first : {s t u : Session} → Step s t → Steps t u → Steps s u
Steps-first st stay = later stay st
Steps-first st (later r l) = later (Steps-first st r) l

-- Some steps lead to the session's removal.
abbrev pub CanBeRemoved : Session → Type 0
CanBeRemoved s = (t : Session) × Steps s t × (t.removed ≡ true)

removed-both_ended :
    (s : Session)
    → s.receiver ≡ Receiver.ended
    → s.sender ≡ Sender.ended
    → s.queue_closed ≡ false
    → CanBeRemoved s
unfolding wait_ended
removed-both_ended s h k q = (wait_ended s, later stay (both_ended h k q), refl)

send_turn-none :
    (s : Session) (b : Bool) (rest : List (Option ℕ))
    → s.send_queue ≡ none ∷ rest
    → send_turn s b ≡ some (send_ended (take_out s none rest))
unfolding send_turn turn_on
send_turn-none s b rest e = ap (turn_on s b) e

send_turn-sent :
    (s : Session) (m : ℕ) (rest : List (Option ℕ))
    → s.send_queue ≡ some m ∷ rest
    → send_turn s true ≡ some (message_handed s m rest)
unfolding send_turn turn_on
send_turn-sent s m rest e = ap (turn_on s true) e

send_turn-stopped :
    (s : Session) (m : Option ℕ) (rest : List (Option ℕ))
    → s.send_queue ≡ m ∷ rest
    → send_turn s false ≡ some (send_ended (take_out s m rest))
unfolding send_turn turn_on
send_turn-stopped s none rest e = ap (turn_on s false) e
send_turn-stopped s (some m) rest e = ap (turn_on s false) e

-- RunSend writes the messages before the nil, and ends on it.
drained :
    (q : List (Option ℕ)) (s : Session)
    → s.send_queue ≡ q
    → has_nil q ≡ true
    → s.receiver ≡ Receiver.ended
    → s.sender ≡ Sender.ranging
    → s.queue_closed ≡ false
    → CanBeRemoved s
unfolding send_ended take_out message_handed
drained [] s e n h k c = cc
drained (none ∷ rest) s e n h k c =
    let (t, r, d) = removed-both_ended (send_ended (take_out s none rest)) h refl c in
    (t, Steps-first (turned true k (send_turn-none s true rest e)) r, d)
drained (some m ∷ rest) s e n h k c =
    let (t, r, d) = drained rest (message_handed s m rest) refl n h k c in
    (t, Steps-first (turned true k (send_turn-sent s m rest e)) r, d)

ended_removed :
    (s : Session)
    → Ending s
    → s.receiver ≡ Receiver.ended
    → s.sender ≢ Sender.recovered
    → CanBeRemoved s
ended_removed s i h k = by_sender s.sender refl s.queue_closed refl
  where
    by_sender : (x : Sender) → s.sender ≡ x → (c : Bool) → s.queue_closed ≡ c → CanBeRemoved s
    by_sender x e true q = (s, stay, sym i.removed_queue ∙ q)
    by_sender Sender.ranging e false q =
        drained s.send_queue s refl (i.told_nil (ap told h) e) h e q
    by_sender Sender.ended e false q = removed-both_ended s h e q
    by_sender Sender.recovered e false q = absurd (k e)

Ending-recv_ended :
    (s : Session) → s.receiver ≡ Receiver.notifying → Ending s → Ending (recv_ended s)
unfolding recv_ended
Ending-recv_ended s h i = ground arith

-- Once RunRecv has put its nil, with no panic in either goroutine, some steps lead to the removal of the
-- session from its manager.
pub Reach-removed :
    (is_gate : Bool) (s : Session)
    → Reach is_gate s
    → told s.receiver ≡ true
    → s.sender ≢ Sender.recovered
    → CanBeRemoved s
unfolding recv_ended
Reach-removed is_gate s r h k = by_receiver s.receiver refl
  where
    by_receiver : (x : Receiver) → s.receiver ≡ x → CanBeRemoved s
    by_receiver Receiver.notifying e =
        let (t, steps, d) =
          ended_removed (recv_ended s) (Ending-recv_ended s e (Ending-Reach is_gate r)) refl k in
        (t, Steps-first (recv_done e) steps, d)
    by_receiver Receiver.ended e = ended_removed s (Ending-Reach is_gate r) e k
    by_receiver Receiver.reading e = absurd (false≢true (sym (ap told e) ∙ h))
    by_receiver Receiver.leaving e = absurd (false≢true (sym (ap told e) ∙ h))
    by_receiver Receiver.recovered e = absurd (false≢true (sym (ap told e) ∙ h))

abbrev Stuck : Session → Type 0
Stuck s =
    (s.receiver ≡ Receiver.leaving) × (s.sender ≡ Sender.ended) × (s.capacity ≤ length s.send_queue)

Step-Stuck : {s t : Session} → Step s t → Stuck s → Stuck t × (t.removed ≡ s.removed)
unfolding close recv_failed put_nil put recv_ended wait_ended send_ended message_handed take_out
    can_put
Step-Stuck {s} (turned b {t} e h) i = absurd (ground arith)
Step-Stuck (open_tested m h) i = (i, refl)
Step-Stuck (length_tested xs ys m e h) i = (i, refl)
Step-Stuck (send_refused xs ys m e h) i = (i, refl)
Step-Stuck (message_put xs ys m e h) i = absurd (ground arith)
Step-Stuck (put_panicked xs ys m e h) i = (i, refl)
Step-Stuck close_called i = (i, refl)
Step-Stuck (read_failed h) i = absurd (ground arith)
Step-Stuck (nil_put e h) i = absurd (ground arith)
Step-Stuck (recv_done h) i = absurd (ground arith)
Step-Stuck (recv_panicked h) i = absurd (ground arith)
Step-Stuck (send_panicked m rest e q) i = absurd (ground arith)
Step-Stuck (both_ended e f g) i = absurd (ground arith)

-- When RunSend ended on an error with the queue full, RunRecv waits in its put of nil for ever: no step
-- moves it on, and none removes the session.
pub Steps-stuck :
    (s t : Session)
    → s.receiver ≡ Receiver.leaving
    → s.sender ≡ Sender.ended
    → s.capacity ≤ length s.send_queue
    → Steps s t
    → (t.receiver ≡ Receiver.leaving) × (t.removed ≡ s.removed)
Steps-stuck s t h k f r = let i = kept r in (i.0.0, i.1)
  where
    kept : {u : Session} → Steps s u → Stuck u × (u.removed ≡ s.removed)
    kept stay = ((h, k, f), refl)
    kept (later l st) = let i = kept l in let j = Step-Stuck st (i.0) in (j.0, j.1 ∙ i.1)

snoc_head :
    (q : List (Option ℕ)) → (x : Option ℕ) × (rest : List (Option ℕ)) × (q ++ none ∷ [] ≡ x ∷ rest)
snoc_head [] = (none, [], refl)
snoc_head (y ∷ q) = (y, q ++ none ∷ [], refl)

can_send-parts : (s : Session) → can_send s ≡ true → (is_open s ≡ true) × (below_max_len s ≡ true)
unfolding can_send is_open below_max_len
can_send-parts s h = (ground arith, ground arith)

-- A caller that is past the tests of Send when the session ends panics: from every state with an open
-- queue in which a send is let through and both goroutines are in their loops, some steps lead to
-- one more caller that panics in its put on the closed queue.
pub send_put_panics :
    (s : Session) (m : Option ℕ)
    → s.receiver ≡ Receiver.reading
    → s.sender ≡ Sender.ranging
    → can_send s ≡ true
    → can_put s ≡ true
    → (t : Session) × Steps s t × (t.panics ≡ s.panics + 1)
unfolding can_put below_max_len put put_nil recv_failed recv_ended send_ended take_out wait_ended
send_put_panics s m h k ok_send ok_put =
    let told_s = recv_ended (put_nil (recv_failed (record s { pending = m ∷ s.pending }))) in
    let (x, rest, e) = snoc_head s.send_queue in
    let stopped = send_ended (take_out told_s x rest) in
    let unclosed : s.queue_closed ≡ false = ground arith in
    let sent =
      later (later stay (open_tested m (can_send-parts s ok_send).0))
        (length_tested [] s.entering m refl (can_send-parts s ok_send).1) in
    (
      record (wait_ended stopped) { pending = s.pending; panics = s.panics + 1 },
      later
          (later
            (later
              (later (later (later sent (read_failed h)) (nil_put refl ok_put)) (recv_done refl))
              (turned false k (send_turn-stopped told_s x rest e)))
            (both_ended refl refl unclosed))
          (put_panicked [] s.pending m refl refl),
      refl,
    )
