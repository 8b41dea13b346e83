-- ===== src/Socket/Http.antt =====
-- socket/http: the sessions of the acceptor and what is written to their responses (session.go,
-- respond_msg.go, acceptor.go), the requests of the connector (connector.go), and the choice of the
-- codec (codec.go). What net/http and the codecs answer is given.
pub mod Status
mod Tests
use rocommon.Prelude.{
  ℕ, List, [], ◌∷◌, ◌++◌, Bool, true, false, Option, none, some, if◌then◌else◌, ◌≡◌, ◌&&◌, ◌||◌,
  ◌==◌,
}
use rocommon.Text.{String, codes, ◌=s◌}

pub data HttpError : Type 0 where
  unknown_operation marshal_failed read_failed do_failed unmarshal_failed : HttpError

-- An `http.ResponseWriter`: the status of the first `WriteHeader` counts.
pub record Response : Type 0 where
  pub status : Option ℕ
  pub body : String

pub record HttpSession : Type 0 where
  pub session_err : Option HttpError
  pub respond : Bool
  pub resp : Response

-- `newHttpSession`
pub new_http_session : HttpSession
new_http_session = record {
  session_err = none;
  respond = false;
  resp = record { status = none; body = [] };
}

abbrev pub write_header : ℕ → Response → Response
write_header code r = elim r.status [ none ↦ record r { status = some code } | some c ↦ r ]

abbrev pub write_body : String → Response → Response
write_body text r = record r { body = r.body ++ text }

-- A message of `Send`: one that responds, by what its codec makes of it and whether that is read, or
-- another.
pub data Sent : Type 0 where
  responds : Option String → Bool → Sent
  no_respond : Sent

-- `WriteRespond`: its error, and the response that it leaves.
unfoldable pub write_respond : Option String → Bool → Response → Option HttpError × Response
write_respond none read r = (some HttpError.marshal_failed, r)
write_respond (some data_) false r = (some HttpError.read_failed, write_header 200 r)
write_respond (some data_) true r = (none, write_body data_ (write_header 200 r))

-- `Send`
unfoldable pub http_send : Sent → HttpSession → HttpSession
unfolding write_respond
http_send (responds data_ read) s =
    let (e, r) = write_respond data_ read s.resp in
    record s { session_err = e; respond = true; resp = r }
http_send no_respond s = record s { session_err = some HttpError.unknown_operation }

-- The calls of Send that the callback makes of an event.
unfoldable pub http_sends : List Sent → HttpSession → HttpSession
unfolding http_send
http_sends [] s = s
http_sends (m ∷ ms) s = http_sends ms (http_send m s)

-- What is written of an error, `http.Error`.
answer_error : (HttpError → String) → HttpSession → HttpSession
answer_error text s = elim s.session_err [
  | none ↦ s
  | some e ↦ record s { resp = write_body (text e) (write_header 500 s.resp) }
]

-- `ServeHTTP`, for the calls of Send that the callback makes of the request.
unfoldable pub serve_http : (HttpError → String) → List Sent → HttpSession
unfolding http_sends answer_error
serve_http text sends = answer_error text (http_sends sends new_http_session)

-- `Match`
pub matches : String → String → String → String → Bool
unfolding ◌=s◌
matches req_method req_path method url = req_method =s method && req_path =s url

-- The codecs of codec.go for http.
pub data HttpCodec : Type 0 where
  http_form http_json : HttpCodec

-- `GetHttpCodec`; the package's own is the one for JSON.
pub get_http_codec : String → HttpCodec
unfolding ◌=s◌
get_http_codec name = if name =s codes "httpform" then http_form else http_json

begins_with : String → String → Bool
begins_with [] s = true
begins_with (c ∷ cs) [] = false
begins_with (c ∷ cs) (d ∷ ds) = let rest = begins_with cs ds in c == d && rest

-- `strings.Contains`
contains : String → String → Bool
unfolding begins_with
contains part [] = begins_with part []
contains part (c ∷ cs) = let rest = contains part cs in begins_with part (c ∷ cs) || rest

-- The address of a request.
pub request_url : String → String → String
unfolding contains
request_url addr path =
    if contains (codes "http") addr then addr ++ path else codes "http://" ++ (addr ++ path)

-- What the calls of one request answer: the marshalled message, whether `NewRequest` took the
-- address, the body of the response, and whether it was unmarshalled into the result.
pub record Exchange : Type 0 where
  pub marshalled : Option String
  pub request_made : String → Bool
  pub answer : Option String
  pub unmarshals : String → Bool

-- `Do`, and `Unmarshal` of the body: the error, and the body that was unmarshalled.
unfoldable pub exchange : Option String → (String → Bool) → Option HttpError × Option String
exchange none unmarshals = (some HttpError.do_failed, none)
exchange (some body) unmarshals =
    if unmarshals body then (none, some body) else (some HttpError.unmarshal_failed, none)

-- From the address on; an error of `NewRequest` is returned as nil.
unfoldable pub send_request : String → String → Exchange → Option HttpError × Option String
unfolding exchange
send_request addr path x =
    if x.request_made (request_url addr path) then exchange x.answer x.unmarshals else (none, none)

-- `Request`, by whether its method is POST: the error, and the body that reached the result.
unfoldable pub request : Bool → String → String → Exchange → Option HttpError × Option String
unfolding send_request
request false addr path x = send_request addr path x
request true addr path x = elim x.marshalled [
  | none ↦ (some HttpError.marshal_failed, none)
  | some data_ ↦ send_request addr path x
]
