-- ===== src/Startup/Keys.antt =====
-- freastal/src/server.c, init_wsgi_keys(): the names that are interned, and the values of the server.
use freastal.Prelude.{
  ℕ, Bool, true, false, not, Option, none, some, List, [], ◌∷◌, ◌++◌, Bytes, if◌then◌else◌,
}
use freastal.Ascii.{codes}
use freastal.Decimal.{fill_digits}
use freastal.Environ.{Config}

-- What CPython answers: PyUnicode_InternFromString() and PyUnicode_FromString() of a text, the tuple
-- of the version, and the steps of server_init() around it: pool_init(), hdr_cache_init(), io.BytesIO
-- with its empty input, and the template. sys.stderr may be missing.
pub record Python : Type 0 where
  pub intern : Bytes → Bool
  pub from_string : Bytes → Bool
  pub version : Bool
  pub has_stderr : Bool
  pub pool : Bool
  pub hdr_cache : Bool
  pub empty_input : Bool
  pub template : Bool

unfoldable pub interned : Bool → List Bytes
interned has_tls =
    codes "REQUEST_METHOD"
    ∷ codes "SCRIPT_NAME"
    ∷ codes "PATH_INFO"
    ∷ codes "QUERY_STRING"
    ∷ codes "SERVER_NAME"
    ∷ codes "SERVER_PORT"
    ∷ codes "SERVER_PROTOCOL"
    ∷ codes "SERVER_SOFTWARE"
    ∷ codes "CONTENT_TYPE"
    ∷ codes "CONTENT_LENGTH"
    ∷ codes "REMOTE_ADDR"
    ∷ codes "wsgi.version"
    ∷ codes "wsgi.url_scheme"
    ∷ codes "wsgi.input"
    ∷ codes "wsgi.errors"
    ∷ codes "wsgi.multithread"
    ∷ codes "wsgi.multiprocess"
    ∷ codes "wsgi.run_once"
    ∷ codes "HTTP/1.0"
    ∷ codes "HTTP/1.1"
    ∷ codes "http"
    ∷ ((if has_tls then codes "https" ∷ [] else []) ++ ([] ∷ codes "freastal/1.0" ∷ []))

-- The macro INTERN, one text after the other.
unfoldable pub intern_all : (Bytes → Bool) → List Bytes → Bool
intern_all intern [] = true
intern_all intern (t ∷ ts) = let rest = intern_all intern ts in if intern t then rest else false

-- The values that the environ takes from the server, or none for the return value -1; sys.stderr is
-- looked up a little later.
unfoldable pub init_wsgi_keys : Bool → Python → Bytes → ℕ → Option Config
unfolding intern_all interned
init_wsgi_keys has_tls python host port =
    let port_str = fill_digits 10 port [] in
    if not (intern_all python.intern (interned has_tls))
    then none
    else if not (python.from_string port_str)
    then none
    else if not (python.from_string host)
    then none
    else if not python.version
    then none
    else some
        (record { server_name = host; server_port = port_str; has_stderr = python.has_stderr })
