-- ===== src/Asgi/Tests.antt =====
-- freastal/src/asgi.c: senders, scopes and turns of the loop on small inputs.
use freastal.Prelude.{
  ℕ, ◌+◌, ◌-◌, ◌==◌, ◌≡◌, refl, ◌⊎◌, inl, inr, true, false, none, some, [], ◌∷◌, Bytes, arith,
}
use freastal.Ascii.{codes}
use freastal.HeaderCache.Lookup.{hdr_table}
use freastal.Response.{Object, bytes, other, chunk, Item, tuple, list, Exception, Reply}
use freastal.Response.Render.{fit, Field, render}
use freastal.Environ.{Request}
use freastal.Asgi.{
  pos, asgi_pair, body_length, format_response_asgi, asgi_send_response, send_reply,
}
use freastal.Asgi.Head.{status_text, format_response_asgi_lem}
use freastal.Asgi.Outcome.{IsSafe, asgi_send_response_lem, unchecked_header}
use freastal.Asgi.Scope.{Scope, scope_template, build_asgi_scope, IsScope, build_asgi_scope_lem}
use freastal.Asgi.Dispatch.{returned_none, Bridge, asgi_dispatch, IsOneAnswer, asgi_dispatch_lem}
use freastal.Asgi.EventLoop.{Callbacks, asgi_drain_ready, live, appended, asgi_drain_ready_lem}
use freastal.Asgi.EventLoop.Wakeups.{
  Asyncio, timer_cb, check_cb, suspended, loop_step, loop_run, at_rest, IsReady, woken_for_work,
}

abbrev tag_item : Item
tag_item = list (bytes (codes "x-tag") ∷ bytes (codes "a") ∷ [])

abbrev tag_field : Field
tag_field = (codes "x-tag", codes "a")

abbrev hello : Object
hello = bytes (codes "hello")

format_response_asgi_lem_example :
    format_response_asgi (pos 200) (tag_item ∷ []) hello true
    ≡ fit (render (status_text (pos 200)) (tag_field ∷ []) (body_length hello) true)
unfolding asgi_pair chunk
format_response_asgi_lem_example =
    format_response_asgi_lem (pos 200) (tag_item ∷ []) (tag_field ∷ []) hello true (ground arith)
      ((bytes (codes "x-tag"), bytes (codes "a"), refl, refl, refl), tt) (ground arith)

asgi_send_response_lem_example :
    ((e : Exception) × (asgi_send_response (pos 200) (some (tag_item ∷ [])) hello true ≡ inl e))
    ⊎ ((r : Reply) × (asgi_send_response (pos 200) (some (tag_item ∷ [])) hello true ≡ inr r)
        × IsSafe (pos 200) (tag_field ∷ []) hello true r)
unfolding chunk
asgi_send_response_lem_example =
    asgi_send_response_lem (pos 200) (tag_item ∷ []) (tag_field ∷ []) hello true (ground arith)
      ((bytes (codes "x-tag"), bytes (codes "a"), inr refl, refl, refl), tt) (ground arith)

abbrev split_value : Bytes
split_value = codes "a\r\nSet-Cookie: b=c"

unchecked_header_example :
    asgi_send_response
      (pos 200)
      (some (tuple (bytes (codes "x-tag") ∷ bytes split_value ∷ other ∷ []) ∷ []))
      hello
      true
    ≡ send_reply
        (fit (
          render
            (status_text (pos 200))
            ((codes "x-tag", split_value) ∷ [])
            (body_length hello)
            true))
        hello
        true
unfolding chunk
unchecked_header_example =
    unchecked_header (pos 200) (codes "x-tag") split_value other hello true (ground arith)
      (ground arith)

abbrev get : Request
get = record {
  method = codes "GET";
  path = codes "/a?b=c";
  minor_version = 1;
  peer_addr = codes "127.0.0.1";
  content_length = 0;
  after_head = [];
  headers = (codes "Host", codes "localhost") ∷ [];
  is_tls = true;
}

abbrev server : Bytes × ℕ
server = (codes "localhost", 8000)

build_asgi_scope_lem_example :
    ((build_asgi_scope (λ b. true) hdr_table (scope_template server true) 5000 get ≡ none)
      × ((true ≡ false) ⊎ (true ≡ false)))
    ⊎ ((s : Scope) × (build_asgi_scope (λ b. true) hdr_table (scope_template server true) 5000 get
          ≡ some s)
        × IsScope get 5000 s)
build_asgi_scope_lem_example = build_asgi_scope_lem (λ b. true) server 5000 get

-- An application that sends one response and returns.
abbrev sends_once : Bridge ℕ
sends_once = record {
  sends =
      λ scope body. record { status = pos 200; headers = some (tag_item ∷ []); body = hello } ∷ [];
  ran = λ scope body. returned_none;
}

asgi_dispatch_lem_example : IsOneAnswer (asgi_dispatch sends_once true true (some 0) 0 [] true)
asgi_dispatch_lem_example =
    asgi_dispatch_lem sends_once true true (some 0) 0 [] true (λ s. ground arith)

-- Callbacks that append a smaller one; 3 is cancelled.
abbrev smaller : Callbacks ℕ
smaller = record {
  cancelled = λ h. some (h == 3);
  appends = λ h. (h - 1) ∷ [];
  returns = λ h. true;
}

asgi_drain_ready_lem_example :
    asgi_drain_ready smaller 3 (5 ∷ 3 ∷ 2 ∷ [])
    ≡ (live smaller (5 ∷ 3 ∷ 2 ∷ []), appended smaller (live smaller (5 ∷ 3 ∷ 2 ∷ [])))
asgi_drain_ready_lem_example =
    asgi_drain_ready_lem smaller (5 ∷ 3 ∷ 2 ∷ [])
      (inr (refl, refl), (inl refl, (inr (refl, refl), tt)))

-- A loop that is the number of its ready callbacks, of which a turn runs one.
abbrev countdown : Asyncio ℕ
countdown = record {
  ready = λ a. a;
  scheduled = λ a. 0;
  run_once = λ a. a - 1;
  drain = λ n a. a - n;
}

woken_for_work_example : IsReady countdown (
    loop_step countdown true check_cb
      (loop_run countdown true (suspended (λ a. a + 2) ∷ timer_cb ∷ []) (0, at_rest)))
woken_for_work_example =
    woken_for_work countdown true 0 (suspended (λ a. a + 2) ∷ timer_cb ∷ []) check_cb tt
