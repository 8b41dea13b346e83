-- ===== src/Socket/Http/Tests.antt =====
-- Requests of socket/http at concrete messages.
use rocommon.Prelude.{List, [], ◌∷◌, true, false, none, some, ◌≡◌, refl}
use rocommon.Text.{codes}
use rocommon.Socket.Http.{Sent, responds, no_respond, request, send_request}

abbrev sends : List Sent
sends = responds (some (7 ∷ [])) true ∷ no_respond ∷ []

-- An address that NewRequest refuses is no error of Request.
bad_address :
    request false (codes "a") (codes "/b") (record {
      marshalled = none;
      request_made = λ u. false;
      answer = none;
      unmarshals = λ b. true;
    })
    ≡ (none, none)
unfolding request send_request
bad_address = refl
