-- ===== src/Connection/Tests.antt =====
-- freastal/src/server.c: the connection run on small inputs, with a parser that takes four bytes for
-- a head, an application that answers at once, and a toy encryption.
use freastal.Prelude.{
  ℕ, zero, suc, ◌+◌, ◌≤◌, ◌<◌, ◌≡◌, refl, ◌⊎◌, inl, ◌&&◌, ◌||◌, is_some, true, false, none, some,
  [], ◌∷◌, ◌++◌, Bytes, length, length-append, length-take, take, ltb, if◌then◌else◌, arith,
}
use freastal.Sizes.{read_buf_size, tls_spill_size}
use freastal.Connection.State.{Client, read_len, client_buffered, consumed, client_reset, alloc_cb}
use freastal.Connection.Dispatch.{
  Env, Parse, incomplete, malformed, parsed, responded, broken, finished, http_dispatch, read_head,
  scan_headers, dispatch_body, call_application, write_response,
}
use freastal.Connection.Encrypted.{receive_all, tls_on_read_data}
use freastal.Connection.Callbacks.{
  proceed, next_request, take_back, dispatch_buffered, resume, accepted_client, on_tls_hs_write,
  on_read, on_write, finish,
}
use freastal.Connection.Steps.{Reach, accepted, later, read_data, response_written}
use freastal.Connection.Outcome.{Parses}
use freastal.Connection.Invariant.{IsReading}
use freastal.Connection.Stream.{spoken, rest}
use freastal.Connection.Secrecy.{handshake_first}
use freastal.Connection.Split.{IsLocal, split, in_order}
use freastal.Connection.Answered.{always_moving}
use freastal.Connection.Requests.{requests_of_stream}
use freastal.Connection.Correct.{
  requests_in_order, no_stall, closed_once, buffers_bounded, request_whole,
  failed_alert_closes_twice, receive_all_enough,
}

-- A head is any four bytes; a first byte 0 is malformed.
abbrev toy_parser : Bytes → ℕ → Parse
toy_parser [] last = incomplete
toy_parser (zero ∷ bs) last = malformed
toy_parser (suc b ∷ bs) last = if ltb (suc (length bs)) 4 then incomplete else parsed 4 1 []

-- The session counts the bytes that went through it, and each call takes up to three.
abbrev toy : Env ℕ
toy = record {
  phr_parse_request = toy_parser;
  application = λ _. responded;
  record_overhead = λ _. 22;
  encrypt_response = λ s. some s;
  uv_write = λ n. true;
  encrypt_final = λ s _. some s;
  handshake =
      λ s bytes. record { result = broken; inlen = length bytes; has_output = true; session = s };
  receive = λ s _ _ bytes. record {
    ok = true;
    inlen = 3;
    plaintext = take 3 bytes;
    is_allocated = false;
    session = s + 3;
  };
}

toy-Parses : Parses toy
toy-Parses [] last n minor hs e = ground arith
toy-Parses (zero ∷ bs) last n minor hs e = ground arith
toy-Parses (suc b ∷ bs) last n minor hs e = ground (arith)

-- Six bytes: one request, and the first half of another.
abbrev six : Bytes
six = 71 ∷ 69 ∷ 84 ∷ 32 ∷ 47 ∷ 10 ∷ []

abbrev fresh : Client ℕ
fresh = accepted_client none

abbrev started : Client ℕ
started = on_read toy true (alloc_cb fresh).0 six

abbrev answered : Client ℕ
answered = on_write toy started true

started-Reach : Reach toy none started
unfolding alloc_cb
started-Reach = later accepted (read_data true six refl refl (omega arith))

answered-Reach : Reach toy none answered
unfolding on_read proceed http_dispatch dispatch_body call_application write_response read_head
    scan_headers alloc_cb
answered-Reach = later started-Reach (response_written true (ground arith) (ground arith))

requests_in_order_example :
    (answered.received
      ≡ spoken answered.served ++ (rest answered ++ (answered.tls_spill ++ answered.lost)))
    × ((answered.tls_broken ≡ true) ⊎ (answered.lost ≡ []))
requests_in_order_example = requests_in_order toy toy-Parses answered-Reach

no_stall_example : (answered.read_armed ≡ true) × (length answered.tls_spill ≡ 0)
unfolding on_read proceed http_dispatch dispatch_body call_application write_response read_head
    scan_headers alloc_cb on_write next_request take_back client_reset dispatch_buffered resume
no_stall_example = no_stall toy toy-Parses answered-Reach refl refl refl

closed_once_example :
    ((answered.handshake_failed ≡ false)
      × (answered.closes ≡ (if answered.closing then 1 else 0))
      × (answered.closing && (answered.response_write || answered.final_write) ≡ false)
      × (answered.response_write && answered.final_write ≡ false))
    ⊎ ((answered.handshake_failed ≡ true) × (answered.closing ≡ true))
closed_once_example = closed_once toy toy-Parses answered-Reach

buffers_bounded_example :
    (answered.read_off ≤ read_len answered)
    × (read_len answered ≤ read_buf_size)
    × (length answered.tls_spill ≤ tls_spill_size)
    × ((length answered.tls_spill ≡ 0) ⊎ (read_len answered ≡ read_buf_size))
buffers_bounded_example = buffers_bounded toy toy-Parses answered-Reach

request_whole_example :
    (0 < started.headers_end)
    × (started.headers_end + started.content_length ≤ client_buffered started)
    × (consumed started ≡ started.headers_end + started.content_length)
unfolding on_read proceed http_dispatch dispatch_body call_application write_response read_head
    scan_headers alloc_cb
request_whole_example = request_whole toy toy-Parses started-Reach refl

abbrev secure : Client ℕ
secure = accepted_client (some 0)

secure-IsReading : IsReading secure
secure-IsReading = ground arith

failed_alert_closes_twice_example :
    (0 < (tls_on_read_data toy true secure 0 six).handshake_writes)
    × ((on_tls_hs_write (tls_on_read_data toy true secure 0 six) false).closes ≡ 2)
failed_alert_closes_twice_example =
    failed_alert_closes_twice toy true secure 0 six secure-IsReading refl refl refl refl

receive_all_enough_example :
    receive_all toy 9 100
      (record { ok = true; produced = []; is_allocated = false; session = 0 })
      six
    ≡ receive_all toy 6 100
        (record { ok = true; produced = []; is_allocated = false; session = 0 })
        six
receive_all_enough_example =
    receive_all_enough toy 9 100
      (record { ok = true; produced = []; is_allocated = false; session = 0 }) six (omega arith)

-- The loop takes all the input.
receive_all-six :
    (receive_all toy 6 100
      (record { ok = true; produced = []; is_allocated = false; session = 0 })
      six).produced
    ≡ six
unfolding receive_all
receive_all-six = refl

-- The first request is handed over, and the two bytes behind it wait.
started_served : started.served ≡ take 4 six ∷ []
unfolding on_read proceed http_dispatch dispatch_body call_application write_response read_head
    scan_headers alloc_cb
started_served = refl

-- The handshake ends with the first two bytes; the rest is a request and the first byte of another.
abbrev quick : Env ℕ
quick = record toy {
  handshake = λ s bytes. record { result = finished; inlen = 2; has_output = true; session = s };
}

abbrev secured : Client ℕ
secured = on_read quick true (alloc_cb (accepted_client (some 0))).0 (1 ∷ 2 ∷ 71 ∷ 69 ∷ 84 ∷ [])

handshake_first_example :
    (is_some secured.tls ≡ true)
    × (secured.clear_writes ≡ [])
    × ((secured.tls_hs_done ≡ true)
        ⊎ ((secured.received ≡ []) × (secured.served ≡ []) × (secured.response_write ≡ false)))
unfolding alloc_cb
handshake_first_example =
    handshake_first quick
      (later accepted (read_data true (1 ∷ 2 ∷ 71 ∷ 69 ∷ 84 ∷ []) refl refl (omega arith)))

toy-IsLocal : IsLocal toy
toy-IsLocal [] last n minor hs rest e = absurd (ground arith)
toy-IsLocal (zero ∷ bs) last n minor hs rest e = absurd (ground arith)
toy-IsLocal (suc b ∷ bs) last n minor hs rest e =
    ground (arith, length-append (take n (suc b ∷ bs)) rest, length-take n (suc b ∷ bs))

requests_of_stream_example :
    split toy (length answered.served + 1) answered.received
    ≡ in_order toy answered.served
      ++ split toy 1 (rest answered ++ (answered.tls_spill ++ answered.lost))
requests_of_stream_example = requests_of_stream toy toy-Parses toy-IsLocal answered-Reach 1

always_moving_example :
    (answered.closing ≡ true)
    ⊎ (answered.final_write ≡ true)
    ⊎ ((answered.response_write ≡ true) × (answered.in_flight ≡ true))
    ⊎ ((answered.read_armed ≡ true)
        × (answered.in_flight ≡ false)
        × (length answered.tls_spill ≡ 0))
    ⊎ ((answered.in_flight ≡ true) × (toy.uv_write (length answered.served) ≡ false))
always_moving_example = always_moving toy toy-Parses (λ r. inl refl) answered-Reach

-- A write that uv_write() refuses leaves the request in flight with nothing pending.
abbrev refusing : Env ℕ
refusing = record toy { uv_write = λ n. false }

abbrev stuck : Client ℕ
stuck = on_read refusing true (alloc_cb fresh).0 six

refused_write : (stuck.in_flight ≡ true) × (stuck.response_write ≡ false) × (stuck.closing ≡ false)
unfolding on_read proceed http_dispatch dispatch_body call_application write_response read_head
    scan_headers alloc_cb
refused_write = (refl, refl, refl)

-- A handshake write fails while a response is pending, which fails then too: two calls of uv_close().
closed_twice :
    (on_write toy
      (on_tls_hs_write
        (record secure { handshake_writes = 1; response_write = true; in_flight = true })
        false)
      false).closes
    ≡ 2
unfolding on_write on_tls_hs_write finish
closed_twice = refl
