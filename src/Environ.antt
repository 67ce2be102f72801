-- ===== src/Environ.antt =====
-- freastal/src/wsgi.c, the environ of a request: environ_template_new(), wsgi_header_key() and
-- build_environ(). A dict is the list of its entries in the order of their insertion; Latin-1
-- decoding gives one code point per byte, so a str is the list of its bytes.
pub mod Dict
pub mod Template
pub mod Keys
pub mod Headers
pub mod Slots
pub mod Loop
pub mod Tests
use freastal.Prelude.{
  ℕ, zero, suc, ◌+◌, ◌-◌, ◌<◌, Bool, true, false, not, ◌&&◌, Option, none, some, List, [], ◌∷◌,
  ◌++◌, map, Bytes, length, take, leb, ltb, ◌==◌, if◌then◌else◌,
}
use freastal.Ascii.{codes, equal_ignoring_case}
use freastal.Decimal.{fill_digits}
use freastal.HeaderCache.{HdrTable, key_byte, hdr_cache_lookup}
use freastal.Response.{Formatting, done, refused, fault, ◌>>=◌}
use freastal.Environ.Dict.{
  Value, text, py_none, py_bool, py_version, stderr, input, Environ, lookup, set_item, del_item,
  set_default,
}

-- What build_environ() reads of the server and of the request. `after_head` is what the buffer holds
-- behind the head, and peer_addr the text of the address.
pub record Config : Type 0 where
  pub server_name : Bytes
  pub server_port : Bytes
  pub has_stderr : Bool

pub record Request : Type 0 where
  pub method : Bytes
  pub path : Bytes
  pub minor_version : ℕ
  pub peer_addr : Bytes
  pub content_length : ℕ
  pub after_head : Bytes
  pub headers : List (Bytes × Bytes)
  pub is_tls : Bool

abbrev set_stderr : Bool → Environ → Environ
set_stderr true t = set_item (codes "wsgi.errors") stderr t
set_stderr false t = t

-- The entries that environ_template_new() sets, in its order.
unfoldable pub template_entries : Config → Bytes → Environ
template_entries cfg url_scheme =
    let t1 = set_item (codes "wsgi.version") (py_version 1 0) [] in
    let t2 = set_item (codes "wsgi.url_scheme") (text url_scheme) t1 in
    let t3 = set_item (codes "wsgi.multithread") (py_bool false) t2 in
    let t4 = set_item (codes "wsgi.multiprocess") (py_bool true) t3 in
    let t5 = set_item (codes "wsgi.run_once") (py_bool false) t4 in
    let t6 = set_item (codes "SERVER_NAME") (text cfg.server_name) t5 in
    let t7 = set_item (codes "SERVER_PORT") (text cfg.server_port) t6 in
    let t8 = set_item (codes "SERVER_SOFTWARE") (text (codes "freastal/1.0")) t7 in
    let t9 = set_item (codes "SCRIPT_NAME") (text []) t8 in
    let t10 = set_stderr cfg.has_stderr t9 in
    let t11 = set_item (codes "REQUEST_METHOD") py_none t10 in
    let t12 = set_item (codes "PATH_INFO") py_none t11 in
    let t13 = set_item (codes "QUERY_STRING") py_none t12 in
    let t14 = set_item (codes "SERVER_PROTOCOL") py_none t13 in
    let t15 = set_item (codes "REMOTE_ADDR") py_none t14 in
    set_item (codes "wsgi.input") py_none t15

abbrev pub environ_template_max_pad : ℕ
environ_template_max_pad = 64

unfoldable pub pad_name : ℕ → Bytes
pad_name i = codes "__freastal_pad_" ++ (fill_digits 10 i [] ++ codes "__")

-- The padding loop from i on; sizes gives what sys.getsizeof() reports after each round, none if it
-- fails.
unfoldable pub pad_loop : (ℕ → Option ℕ) → ℕ → ℕ → ℕ → Environ → Environ
pad_loop sizes base zero i t = t
pad_loop sizes base (suc n) i t =
    let t' = del_item (pad_name i) (set_item (pad_name i) py_none t) in
    let more = pad_loop sizes base n (i + 1) t' in
    elim (sizes i) [ none ↦ t' | some now ↦ if ltb base now then t' else more ]

-- environ_template_new(): base is what sys.getsizeof() reports first, none without getsizeof.
unfoldable pub environ_template_new : Config → Bytes → Option ℕ → (ℕ → Option ℕ) → Environ
environ_template_new cfg url_scheme none sizes = template_entries cfg url_scheme
environ_template_new cfg url_scheme (some base) sizes =
    let t = template_entries cfg url_scheme in
    let padded = pad_loop sizes base environ_template_max_pad 0 t in
    if length padded == length t then padded else t

-- What sys.getsizeof() reports while a template is built: at first, after each round, and of the
-- template and its copy at the end; none if it fails.
pub record Sizes : Type 0 where
  pub base : Option ℕ
  pub rounds : ℕ → Option ℕ
  pub template : Option ℕ
  pub copy : Option ℕ

-- environ_template_build() with its self-check, and without getsizeof if there is none.
unfoldable pub environ_template_build : Config → Bytes → Option Sizes → Environ
environ_template_build cfg url_scheme none = environ_template_new cfg url_scheme none (λ i. none)
environ_template_build cfg url_scheme (some sizes) =
    let t = environ_template_new cfg url_scheme sizes.base sizes.rounds in
    let plain = environ_template_new cfg url_scheme none sizes.rounds in
    elim sizes.template [
      | none ↦ t
      | some a ↦ elim sizes.copy [
        | none ↦ t
        | some b ↦ if ltb 0 a && (ltb 0 b && ltb b a) then plain else t
      ]
    ]

unfoldable pub wsgi_header_key : Bytes → Bytes
unfolding key_byte
wsgi_header_key name = codes "HTTP_" ++ map key_byte name

-- The path up to the first '?', and what follows it; none if there is none.
unfoldable pub split_query : Bytes → Bytes × Option Bytes
split_query [] = ([], none)
split_query (b ∷ bs) =
    let (info, query) = split_query bs in if b == b'?' then ([], some bs) else (b ∷ info, query)

unfoldable pub query_value : Option Bytes → Value
query_value none = text []
query_value (some query) = text query

-- The key of a header, from the cache or made.
unfoldable pub header_key : HdrTable → Bytes → Bytes
header_key cache name = elim (hdr_cache_lookup cache name) [
  | none ↦ wsgi_header_key name
  | some e ↦ e.wsgi_key
]

unfoldable pub separator : Bytes → Bytes
separator name =
    if length name == 6 && equal_ignoring_case name (codes "cookie") then codes "; " else codes ", "

-- "%U%s%U", which is for a str only.
unfoldable pub join_values : Value → Bytes → Bytes → Formatting Value
join_values (text prev) sep v = done (text ((prev ++ sep) ++ v))
join_values prev sep v = fault

-- The insertion of a general header, with the test on the size of the dict before it.
unfoldable pub after_default : Bytes → Bytes → Bytes → ℕ → Value × Environ → Formatting Environ
after_default name key v before (prev, env) =
    if length env == before
    then (join_values prev (separator name) v >>= λ joined. done (set_item key joined env))
    else done env

unfoldable pub add_general : Bytes → Bytes → Bytes → Environ → Formatting Environ
add_general name key v env = after_default name key v (length env) (set_default key (text v) env)

unfoldable pub add_header : HdrTable → Bytes × Bytes → Environ → Formatting Environ
add_header cache (name, v) env =
    if length name == 12 && equal_ignoring_case name (codes "content-type")
    then done (set_item (codes "CONTENT_TYPE") (text v) env)
    else if length name == 14 && equal_ignoring_case name (codes "content-length")
    then done (set_item (codes "CONTENT_LENGTH") (text v) env)
    else add_general name (header_key cache name) v env

unfoldable pub add_headers : HdrTable → List (Bytes × Bytes) → Environ → Formatting Environ
add_headers cache [] env = done env
add_headers cache (h ∷ hs) env = add_header cache h env >>= add_headers cache hs

unfoldable pub request_body : Request → Bytes
request_body r = take r.content_length r.after_head

-- The six slots that are overwritten.
unfoldable pub set_request : Request → Environ → Environ
set_request r env =
    let (info, query) = split_query r.path in
    let e1 = set_item (codes "REQUEST_METHOD") (text r.method) env in
    let e2 = set_item (codes "PATH_INFO") (text info) e1 in
    let e3 = set_item (codes "QUERY_STRING") (query_value query) e2 in
    let e4 =
      set_item (codes "SERVER_PROTOCOL")
        (if r.minor_version == 1 then text (codes "HTTP/1.1") else text (codes "HTTP/1.0")) e3 in
    let e5 = set_item (codes "REMOTE_ADDR") (text r.peer_addr) e4 in
    set_item (codes "wsgi.input")
      (if r.content_length == 0 then input [] else input (request_body r)) e5

-- The templates for plaintext and encrypted connections are those of wsgi_init_environ_template().
unfoldable pub build_environ : HdrTable → Environ → Environ → Request → Formatting Environ
build_environ cache template template_https r =
    let t = if r.is_tls then template_https else template in
    add_headers cache r.headers (set_request r t)
