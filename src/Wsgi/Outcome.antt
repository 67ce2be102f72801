-- ===== src/Wsgi/Outcome.antt =====
-- freastal/src/wsgi.c, wsgi_call_application(): what it answers.
use freastal.Prelude.{
  ◌^◌, ◌≤◌, ◌<◌, ◌≡◌, refl, ap, ◌∙◌, ◌⊎◌, inl, inr, Bool, true, Option, none, some, List, ◌++◌,
  Bytes, All, length, leb, option_cases, if_cases, arith,
}
use freastal.Ascii.{codes}
use freastal.Sizes.{resp_hdr_size}
use freastal.HeaderSyntax.{status_ok}
use freastal.HeaderSyntax.Grammar.{status_ok-IsInLine}
use freastal.Response.{Reply, Formatting, done}
use freastal.Response.Render.{fit, Field, render}
use freastal.Response.Lines.{All-append-IsInLine, head_lines, WrittenAs, render-WrittenAs}
use freastal.Wsgi.{Started, Iterable, collect_body, format_response_headers}
use freastal.Wsgi.Head.{status_text, format_response_headers_lem}
use freastal.Wsgi.Start.{IsValid}
use freastal.Wsgi.Application.{
  Behaviour, run_calls, send_500, reply_of, finish_response, wsgi_call_application,
}
use freastal.Wsgi.Calls.{
  IsShort, HasStored, IsFine, run_calls-IsFine, HasTexts-Reads, valid-IsFieldInLine,
}

-- A head written by the server, with the body that the application gave.
abbrev pub IsWritten : Bytes → List Field → Bytes → Bool → Reply → Type 0
IsWritten status fields body keep_alive r =
    let head = render (status_text status) fields (length body) keep_alive in
    (r ≡ record { resp_hdr = head; resp_body = some body; keep_alive = keep_alive })
    × (length head ≤ resp_hdr_size)
    × WrittenAs head (head_lines (codes "HTTP/1.1 " ++ status) fields (length body) keep_alive)

abbrev pub IsAnswer : Bool → Option Iterable → Formatting Reply → Type 0
IsAnswer keep_alive returned answer =
    (answer ≡ done send_500)
    ⊎ ((r : Reply) × (answer ≡ done r)
        × (status : Bytes) × (fields : List Field) × (result : Iterable) × (body : Bytes)
        × (returned ≡ some result)
        × (collect_body result ≡ some body)
        × (status_ok status ≡ true)
        × All IsValid fields
        × IsWritten status fields body keep_alive r)

finish_same :
    (st : Started) (status : Bytes) (fields : List Field) (keep_alive : Bool) (body : Bytes)
    → HasStored st status fields
    → length body < 2 ^ 64
    → finish_response st (λ is. is) keep_alive body
      ≡ reply_of (fit (render (status_text status) fields (length body) keep_alive)) keep_alive body
unfolding finish_response
finish_same st status fields k body (e, (items, f, t), ok, v, l, sh) b =
    ap
      (λ ph.
        reply_of
          (format_response_headers
            (record {
              resp_status = st.resp_status;
              resp_pyheaders = elim ph [ none ↦ none | some is ↦ some is ];
            })
            k (length body))
          k body)
      f
    ∙ ap (λ x. reply_of x k body)
        (format_response_headers_lem
          (record { resp_status = st.resp_status; resp_pyheaders = some items }) status items fields
          k (length body) e refl l (HasTexts-Reads items fields t sh) b)

-- What the application's body is answered with.
abbrev IsWrittenOr500 : Bytes → List Field → Bytes → Bool → Formatting Reply → Type 0
IsWrittenOr500 status fields body keep_alive answer =
    (answer ≡ done send_500)
    ⊎ ((r : Reply) × (answer ≡ done r) × IsWritten status fields body keep_alive r)

fit_cases :
    (status : Bytes) (fields : List Field) (keep_alive : Bool) (body : Bytes)
    → status_ok status ≡ true
    → All IsValid fields
    → length body < 2 ^ 64
    → IsWrittenOr500 status fields body keep_alive (
        reply_of
          (fit (render (status_text status) fields (length body) keep_alive))
          keep_alive
          body)
unfolding reply_of
fit_cases status fields k body ok v b =
    let head = render (status_text status) fields (length body) k in
    let first =
      All-append-IsInLine (codes "HTTP/1.1 ") status (ground arith)
        (status_ok-IsInLine status ok) in
    if_cases (λ x. IsWrittenOr500 status fields body k (reply_of x k body))
      (leb (length head) resp_hdr_size)
      (λ fits. inr (
        record { resp_hdr = head; resp_body = some body; keep_alive = k },
        refl,
        (
          refl,
          ground arith,
          render-WrittenAs (codes "HTTP/1.1 " ++ status) fields (length body) k first
              (valid-IsFieldInLine fields v) b,
        ),
      ))
      λ long. inl refl

finish_cases :
    (st : Started) (status : Bytes) (fields : List Field) (keep_alive : Bool) (body : Bytes)
    → HasStored st status fields
    → length body < 2 ^ 64
    → IsWrittenOr500 status fields body keep_alive (finish_response st (λ is. is) keep_alive body)
finish_cases st status fields k body h b =
    rw (finish_same st status fields k body h b) (fit_cases status fields k body h.2 h.3 b)

-- If an application calls start_response with texts below 2 GiB, as often and with whatever it likes,
-- does not change the list of headers afterwards, and gives a body below 2^64 bytes, the answer to
-- its request is the 500 response, or a head that fits RESP_HDR_SIZE, with the body that was
-- collected, of a valid status and valid headers, of which a recipient that ends a line at any LF
-- reads exactly the lines of the status, the headers, the automatic headers and the empty line.
pub wsgi_call_application_lem {ℓ} :
    {Env : Type ℓ} (app : Behaviour Env) (env : Env) (keep_alive : Bool)
    → All IsShort (app.calls env)
    → All IsShort (app.late_calls env)
    → ((result : Iterable) (body : Bytes)
        → app.returned env ≡ some result
        → collect_body result ≡ some body
        → length body < 2 ^ 64)
    → app.changed env ≡ (λ is. is)
    → IsAnswer keep_alive (app.returned env) (
        wsgi_call_application app
          (some env)
          (record { resp_status = none; resp_pyheaders = none })
          keep_alive)
unfolding wsgi_call_application
wsgi_call_application_lem app env k s t b c =
    let st : Started = record { resp_status = none; resp_pyheaders = none } in
    let iterated : Started = run_calls (app.late_calls env) (run_calls (app.calls env) st) in
    let fine : IsFine iterated =
      run_calls-IsFine (app.late_calls env) _ t
        (run_calls-IsFine (app.calls env) st s (inl refl)) in
    option_cases (IsAnswer k (app.returned env)) (app.returned env) (λ n. inl refl)
      (λ result e.
        option_cases (IsAnswer k (app.returned env)) (collect_body result) (λ n. inl refl)
          (λ body q.
            option_cases (IsAnswer k (app.returned env)) iterated.resp_status (λ n. inl refl)
              (λ o z. elim fine [
                | inl n ↦ absurd (ground arith)
                | inr (status, fields, h) ↦
                    let same = ap (λ ch. finish_response iterated ch k body) c in
                    elim (finish_cases iterated status fields k body h (b result body e q)) [
                      | inl p ↦ inl (same ∙ p)
                      | inr (r, p, w) ↦
                          inr (r, same ∙ p, status, fields, result, body, e, q, h.2, h.3, w)
                    ]
              ])))
