-- ===== src/Socket/Http/Status.antt =====
-- The status that a request of socket/http is answered with.
use rocommon.Prelude.{
  List, [], ◌∷◌, Bool, true, false, none, some, ◌||◌, if◌then◌else◌, ◌≡◌, ◌≢◌, refl, arith,
}
use rocommon.Text.{String}
use rocommon.Socket.Http.{
  HttpError, HttpSession, new_http_session, Sent, responds, no_respond, write_respond, http_send,
  http_sends, answer_error, serve_http,
}

-- A message that its codec could marshal.
abbrev pub was_marshalled : Sent → Bool
was_marshalled (responds none read) = false
was_marshalled (responds (some data_) read) = true
was_marshalled no_respond = false

abbrev pub any_marshalled : List Sent → Bool
any_marshalled [] = false
any_marshalled (m ∷ ms) = was_marshalled m || any_marshalled ms

-- The last call of Send had no error.
abbrev pub last_sent : Bool → List Sent → Bool
last_sent before [] = before
last_sent before (responds (some data_) true ∷ ms) = last_sent true ms
last_sent before (m ∷ ms) = last_sent false ms

-- The status, and whether there is an error, after some calls.
abbrev StatusIs : Bool → Bool → HttpSession → Type 0
StatusIs marshalled fine s =
    (s.resp.status ≡ (if marshalled then some 200 else none))
    × ((s.session_err ≡ none → fine ≡ true) × (fine ≡ true → s.session_err ≡ none))

sends-StatusIs :
    (ms : List Sent) (marshalled fine : Bool) (s : HttpSession)
    → StatusIs marshalled fine s
    → StatusIs (marshalled || any_marshalled ms) (last_sent fine ms) (http_sends ms s)
unfolding http_sends http_send write_respond
sends-StatusIs [] marshalled fine s h = ground (arith, h)
sends-StatusIs (responds none read ∷ ms) marshalled fine s h = ground (
  arith,
  sends-StatusIs ms marshalled false (http_send (responds none read) s) (ground (arith, h)),
)
sends-StatusIs (responds (some d) false ∷ ms) marshalled fine s h = ground (
  arith,
  sends-StatusIs ms true false (http_send (responds (some d) false) s) (ground (arith, h)),
)
sends-StatusIs (responds (some d) true ∷ ms) marshalled fine s h =
    ground (
      arith,
      sends-StatusIs ms true true (http_send (responds (some d) true) s) (ground (arith, h)),
    )
sends-StatusIs (no_respond ∷ ms) marshalled fine s h =
    ground (arith, sends-StatusIs ms marshalled false (http_send no_respond s) (ground (arith, h)))

last_sent_none : (ms : List Sent) → any_marshalled ms ≡ false → last_sent false ms ≡ false
last_sent_none [] h = refl
last_sent_none (responds none read ∷ ms) h = last_sent_none ms h
last_sent_none (responds (some d) read ∷ ms) h = absurd (ground (arith, h))
last_sent_none (no_respond ∷ ms) h = last_sent_none ms h

last_sent_first :
    (m : Sent) (ms : List Sent) → any_marshalled (m ∷ ms) ≡ false → last_sent true (m ∷ ms) ≡ false
last_sent_first (responds none read) ms h = last_sent_none ms h
last_sent_first (responds (some d) read) ms h = absurd (ground (arith, h))
last_sent_first no_respond ms h = last_sent_none ms h

-- A request is answered with status 200 when any message that the callback sent could be marshalled, also
-- when it could not be written or another failed after it; with 500 when none could and the last call of
-- Send failed; and with no status of its own when nothing was sent.
pub serve_http-status :
    (text : HttpError → String) (ms : List Sent)
    → (any_marshalled ms ≡ true → (serve_http text ms).resp.status ≡ some 200)
      × (any_marshalled ms ≡ false → ms ≢ [] → (serve_http text ms).resp.status ≡ some 500)
      × (ms ≡ [] → (serve_http text ms).resp.status ≡ none)
unfolding serve_http answer_error new_http_session
serve_http-status text [] = (λ e. absurd (ground (arith, e)), λ e ne. absurd (ne refl), λ e. refl)
serve_http-status text (m ∷ ms) =
    let h = sends-StatusIs (m ∷ ms) false true new_http_session (refl, ((λ e. refl), λ e. refl)) in
    (
      λ e. ground (arith, e, h),
      λ e ne. ground (arith, e, h, last_sent_first m ms e),
      λ e. absurd (ground (arith, e)),
    )
