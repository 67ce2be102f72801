-- ===== src/Wsgi/Tests.antt =====
-- freastal/src/wsgi.c: applications on small inputs.
use freastal.Prelude.{
  ◌==◌, ◌≡◌, ◌↔◌, refl, subst, ap, ◌∙◌, ◌<◌, ◌^◌, inl, inr, Bool, true, false, Option, none, some,
  List, [], ◌∷◌, ◌++◌, map, Bytes, length, if◌then◌else◌, arith,
}
use freastal.Ascii.{codes}
use freastal.Response.{Object, str, bytes, Item, tuple, runtime_error, chunk}
use freastal.Response.Render.{fit, Field, render}
use freastal.Wsgi.{
  Started, items_of, two_of, check_headers, check_status, start_checked, start_response, yields,
  raises, stops, py_iter_next, Iterable, exact_list, iterable, collect_chunks, collect_iterator,
  rest_of, join, collect_body, format_response_headers,
}
use freastal.HeaderSyntax.{status_ok, hdr_value_ok}
use freastal.Wsgi.Head.{status_text, format_response_headers_lem}
use freastal.Wsgi.Start.{IsAdmissible, stored, start_response_lem}
use freastal.Wsgi.Body.{ends, is_raised, body_of, collect_body_lem}
use freastal.Wsgi.Application.{Call, Behaviour, wsgi_call_application}
use freastal.Wsgi.Outcome.{IsAnswer, wsgi_call_application_lem}

abbrev ok_status : Bytes
ok_status = codes "200 OK"

abbrev tag_item : Item
tag_item = tuple (str (some (codes "X-Tag")) ∷ str (some (codes "a")) ∷ [])

abbrev tag_field : Field
tag_field = (codes "X-Tag", codes "a")

abbrev started : Started
started = record {
  resp_status = some (str (some ok_status));
  resp_pyheaders = some (tag_item ∷ []);
}

abbrev nothing_stored : Started
nothing_stored = record { resp_status = none; resp_pyheaders = none }

format_response_headers_lem_example :
    format_response_headers started true 2
    ≡ fit (render (status_text ok_status) (tag_field ∷ []) 2 true)
unfolding items_of
format_response_headers_lem_example =
    format_response_headers_lem started ok_status (tag_item ∷ []) (tag_field ∷ []) true 2 refl refl
      (ground arith) ((refl, ground arith, ground arith), tt) (ground arith)

start_response_lem_example :
    (start_response (str (some ok_status)) (some (tag_item ∷ [])) true nothing_stored
      ≡ inr (stored (str (some ok_status)) (some (tag_item ∷ []))))
    ↔ IsAdmissible (str (some ok_status)) (some (tag_item ∷ [])) true nothing_stored
start_response_lem_example =
    start_response_lem (str (some ok_status)) (some (tag_item ∷ [])) true nothing_stored

-- A second call with exc_info is refused although nothing has been sent, and one without is not.
again_with_exc_info :
    start_response (str (some ok_status)) (some []) true started ≡ inl runtime_error
unfolding start_response
again_with_exc_info = refl

again_without :
    start_response (str (some ok_status)) (some []) false started
    ≡ inr (stored (str (some ok_status)) (some []))
unfolding start_response start_checked check_status check_headers status_ok hdr_value_ok
again_without = refl

abbrev two_chunks : List Object
two_chunks = bytes (codes "he") ∷ bytes (codes "llo") ∷ []

collect_body_lem_example :
    (collect_body (exact_list two_chunks) ≡ body_of two_chunks)
    × (collect_body (iterable (some (map yields two_chunks ++ ends (some false))))
        ≡ (if is_raised (some false) then none else body_of two_chunks))
    × (collect_body (iterable (some (map yields two_chunks ++ (raises ∷ stops ∷ []))))
        ≡ (if length two_chunks == 1 then body_of two_chunks else none))
collect_body_lem_example = collect_body_lem two_chunks (some false) []

-- An exception at the second chunk is forgotten if the next call stops.
swallowed :
    collect_body (iterable (some (yields (bytes (codes "a")) ∷ raises ∷ stops ∷ [])))
    ≡ some (codes "a")
unfolding collect_body collect_iterator collect_chunks py_iter_next rest_of join chunk
swallowed = refl

abbrev hello_call : Call
hello_call = record {
  status = str (some ok_status);
  headers = some (tag_item ∷ []);
  exc_info = false;
}

abbrev hello : Behaviour Bool
hello = record {
  calls = λ env. hello_call ∷ [];
  returned = λ env. some (exact_list (bytes (codes "hello") ∷ []));
  late_calls = λ env. [];
  changed = λ env is. is;
}

collected : Option Iterable → Option Bytes
collected o = elim o [ none ↦ none | some r ↦ collect_body r ]

ShortBody : Option Bytes → Type 0
ShortBody o = elim o [ none ↦ Unit | some b ↦ length b < 2 ^ 64 ]

hello_short :
    (result : Iterable) (body : Bytes)
    → hello.returned true ≡ some result
    → collect_body result ≡ some body
    → length body < 2 ^ 64
unfolding collected ShortBody collect_body
hello_short result body e h =
    subst ShortBody {x = some (codes "hello")} {y = some body} (ap collected e ∙ h) (ground arith)

wsgi_call_application_lem_example :
    IsAnswer true
      (some (exact_list (bytes (codes "hello") ∷ [])))
      (wsgi_call_application hello (some true) nothing_stored true)
unfolding two_of collect_body
wsgi_call_application_lem_example =
    wsgi_call_application_lem hello true true ((ground arith, (ground arith, tt)), tt) tt
      hello_short refl
