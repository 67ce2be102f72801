-- ===== src/Wsgi/Application.antt =====
-- freastal/src/wsgi.c, send_500() and wsgi_call_application(): one call of the application.
use freastal.Prelude.{Bool, false, inl, inr, Option, none, some, List, [], ◌∷◌, Bytes, length}
use freastal.Ascii.{codes}
use freastal.Response.{Reply, Object, Item, Formatting, done, refused, fault}
use freastal.Wsgi.{Started, Iterable, start_response, collect_body, format_response_headers}

-- A call of start_response, in order.
pub record Call : Type 0 where
  pub status : Object
  pub headers : Option (List Item)
  pub exc_info : Bool

-- What the application does: the calls it makes before it returns, what it returns if it does not
-- raise, and the calls it makes while what it returned is iterated. The application keeps the list
-- of headers, so it may hold other items when the head is written than when it was checked.
pub record Behaviour {ℓ} (Env : Type ℓ) : Type ℓ where
  pub calls : Env → List Call
  pub returned : Env → Option Iterable
  pub late_calls : Env → List Call
  pub changed : Env → List Item → List Item

-- A call that raises changes nothing.
unfoldable pub run_calls : List Call → Started → Started
run_calls [] st = st
run_calls (c ∷ cs) st = elim (start_response c.status c.headers c.exc_info st) [
  | inl e ↦ run_calls cs st
  | inr st' ↦ run_calls cs st'
]

unfoldable pub send_500 : Reply
send_500 = record {
  resp_hdr =
      codes
        "HTTP/1.1 500 Internal Server Error\r\nContent-Type: text/plain\r\nContent-Length: 21\r\nConnection: close\r\n\r\nInternal Server Error";
  resp_body = none;
  keep_alive = false;
}

-- What follows format_response_headers().
unfoldable pub reply_of : Formatting Bytes → Bool → Bytes → Formatting Reply
reply_of (done hdr) keep_alive body =
    done (record { resp_hdr = hdr; resp_body = some body; keep_alive = keep_alive })
reply_of refused keep_alive body = done send_500
reply_of fault keep_alive body = fault

-- The end: the head is written from what the list of headers holds by now.
unfoldable pub finish_response : Started → (List Item → List Item) → Bool → Bytes → Formatting Reply
finish_response st changed keep_alive body =
    let now : Started = record {
      resp_status = st.resp_status;
      resp_pyheaders = elim st.resp_pyheaders [ none ↦ none | some is ↦ some (changed is) ];
    } in
    reply_of (format_response_headers now keep_alive (length body)) keep_alive body

-- The environ is none if it could not be built; the state is the one that the client has.
unfoldable pub wsgi_call_application {ℓ} :
    {Env : Type ℓ} → Behaviour Env → Option Env → Started → Bool → Formatting Reply
wsgi_call_application app none st keep_alive = done send_500
wsgi_call_application app (some env) st keep_alive =
    let called = run_calls (app.calls env) st in
    elim (app.returned env) [
      | none ↦ done send_500
      | some result ↦
          let iterated = run_calls (app.late_calls env) called in
          elim (collect_body result) [
            | none ↦ done send_500
            | some body ↦ elim iterated.resp_status [
              | none ↦ done send_500
              | some status ↦ finish_response iterated (app.changed env) keep_alive body
            ]
          ]
    ]
