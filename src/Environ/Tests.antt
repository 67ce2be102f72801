-- ===== src/Environ/Tests.antt =====
-- freastal/src/wsgi.c: the environ of a request with repeated headers.
use freastal.Prelude.{◌≡◌, true, false, some, [], ◌∷◌, Bytes}
use freastal.Ascii.{codes}
use freastal.Response.{done}
use freastal.Environ.{Config, Sizes, Request, split_query}
use freastal.Environ.Dict.{Environ, lookup}
use freastal.Environ.Slots.{IsCut, HasSlots}
use freastal.Environ.Headers.{http_key, joined, separator_of, values_for}
use freastal.Environ.Loop.{environ_of, environ_of-HasSlots, environ_of-joined}

abbrev local : Config
local = record { server_name = codes "localhost"; server_port = codes "8000"; has_stderr = true }

abbrev get : Request
get = record {
  method = codes "POST";
  path = codes "/a?b=c";
  minor_version = 1;
  peer_addr = codes "127.0.0.1";
  content_length = 2;
  after_head = codes "hiGET /";
  headers =
      (codes "Cookie", codes "a=1")
      ∷ (codes "Content-Length", codes "2")
      ∷ (codes "cookie", codes "b=2")
      ∷ [];
  is_tls = false;
}

-- The table grows at the first round, and its copy is as large.
abbrev sizes : Sizes
sizes = record { base = some 100; rounds = λ i. some 200; template = some 200; copy = some 200 }

environ_of-HasSlots_example :
    (env : Environ) × (environ_of local (some sizes) get ≡ done env)
    × HasSlots get env
    × IsCut get.path (split_query get.path)
environ_of-HasSlots_example = environ_of-HasSlots local (some sizes) get

environ_of-joined_example :
    (env : Environ) × (environ_of local (some sizes) get ≡ done env)
    × ((rest : Bytes)
        → lookup (http_key rest) env
          ≡ joined (separator_of (http_key rest)) (values_for (http_key rest) get.headers))
environ_of-joined_example = environ_of-joined local (some sizes) get
