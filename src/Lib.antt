-- ===== src/Lib.antt =====
-- A model of freastal, a Python web server written in C on libuv, picohttpparser and picotls, and
-- what holds of it.
--
-- A connection (freastal/src/server.c) reads into one buffer per client, parses a request out of it
-- with picohttpparser, hands it to the WSGI or ASGI application, writes the response, and goes on
-- with the next request, which may be in the buffer already. An encrypted connection passes the
-- bytes through picotls in between, and keeps what does not fit beside the buffer. The header cache
-- (freastal/src/hdrcache.c) and the header checks (freastal/src/hdrvalid.h) serve the two
-- application interfaces, as does the decimal writer (freastal/src/server.h). Session tickets are
-- sealed under keys that rotate (freastal/src/tls.c), in one process or shared between workers.
--
-- Prelude passes on the names of the libraries and has tests on native numbers, lists of bytes and
-- splits on a computed value. Ascii is what the C library gives on bytes. Sizes has the capacities
-- of freastal/src/server.h.
--
-- Connection models client_t and every callback of one connection. State has the struct and the
-- buffer bookkeeping; Dispatch http_dispatch(), write_response() and tls_send_final(); Encrypted
-- the spill, tls_read_flow() and tls_on_read_data(); Callbacks the rest, from on_new_connection()
-- to on_write(). read_buf is the list of its bytes up to read_len; a request handed over, a byte
-- received and a byte lost are kept as history beside the struct, as is libuv's view of the handle.
-- What the parser, picotls and the application return is the record Env, a parameter. Steps has the
-- step relation and what can be reached. Outcome is about each return of http_dispatch(), Bounds,
-- Invariant, Parts, Writes and Keeps about the invariant, Stream, Calm, Reads and Order about the
-- order of the bytes, Secrecy about what an encrypted connection does before its handshake is done.
-- Closure says that a predicate that the parts of the callbacks keep is kept by every step. Split
-- has the stream split into requests from its start, Handover and Requests compare it with what
-- http_dispatch() hands over; Answered is about an application that answers before it returns.
-- Correct draws the other conclusions. A handshake write that fails closes the handle whatever is
-- pending on it; Gone is about a connection after that. Steps lets a suspended application respond
-- once to a request, which the code does not see to. uv_write() may refuse a response, and what it
-- returns is ignored as in the code. The loop over ptls_receive() runs on fuel, the length of its
-- input, of which every round but the last consumes some.
--
-- Decimal models write_uint(). Its loops run on fuel, five rounds for uint_ndigits() and ten for
-- the digits, which is enough for 64 bits. HeaderSyntax models the checks of names, values and
-- status lines, and HeaderCache the cached names with their lookup.
--
-- TicketRing models the keys of one process, TicketRing/Shared the ring that the owner publishes
-- and the workers read. Retention is about how long a key lives, SharedRules about the shared ring,
-- and Seqlock about the interleaving of publication and reading, word by word; the sequence number
-- wraps there as it does in C. Hook is about a process that drops the ring or asks for a rotation,
-- and the 5000 loads of tls_ticket_rotate_hook() are its fuel. Region is the shared memory behind
-- the ring, with the descriptors, names, mappings and locks that the kernel holds for the process;
-- its loop has the eight attempts of the code. Region/Made and Region/Life are about a ring from
-- its creation to its destruction. Random bytes, the clock and the kernel's answers are arguments.
--
-- TlsServer models tls_server_init() of freastal/src/tls.c, and Startup the start of a server:
-- server_init() of freastal/src/server.c, with Startup/Keys for init_wsgi_keys(), and serve_init()
-- and py_serve() of freastal/src/freastalmodule.c. AsgiServer models asgi_server_init() of
-- freastal/src/asgi.c, and Startup/ServeAsgi py_serve_asgi(), which puts it behind serve_init().
-- Each step of other libraries is an answer in a record; steps of CPython that only allocate share
-- one. Sockets, Stages and Outcome are about the server that is left, Files about a certificate or
-- a key that comes alone.
--
-- TlsWrite models tls_write_response_impl(), with the blocks and records it takes; its loop runs on
-- as many rounds as there are records, and one more to end, and tls_slice() on one more than it has
-- vectors. Whole is about all records of a response together. Pools models the client slots, the
-- encryption and spill blocks and the oversized buffer, Release what a connection gives back, and
-- Clients and Blocks whatever order they are taken and given back in.
--
-- Response is what the two application interfaces share in writing the head of a response
-- (freastal/src/wsgi.c, freastal/src/asgi.c): the bounds-checked append, the automatic headers, and
-- Python objects as far as the server looks at them; a fault stands for behaviour that C leaves
-- undefined. Render has the head as one text, Fields is about the loop over the headers, and Lines
-- about the lines that a recipient reads.
--
-- Wsgi models start_response, collect_body() and format_response_headers() of freastal/src/wsgi.c,
-- and Wsgi/Application the dispatch. An application is the calls of start_response it makes, what
-- it returns, and what it makes of its list of headers afterwards. An iterator is the list of what
-- calling it gives. Head, Start, Body and Outcome are about the four, Calls about the calls of
-- start_response. Environ models the template of the environ, its padding and build_environ(); Dict
-- is Python's dict, Slots about what every request sets, Keys about the key of a header, Headers
-- about what one header does, Loop about all of them.
--
-- Asgi models freastal/src/asgi.c: the formatter, asgi_send_response(), Dispatch asgi_dispatch(),
-- Scope the scope, EventLoop the drain of asyncio's queue, and EventLoop/Wakeups the callbacks of
-- libuv with the handles that keep it awake. CoroStep is asgi_coro_step(), over a thread with the
-- contexts that it has entered. The Python bridge, asyncio and CPython's contexts are parameters.
--
-- Not modelled: the method table of the Python module and its parsing of arguments; the OpenSSL
-- contexts, madvise() and the log lines; picohttpparser and picotls; Python objects that memory
-- fails for, but in Startup and AsgiServer, and reference counts; the time, a double, for which
-- asgi_arm_wakeups() sets the timer.
pub mod Ascii
pub mod Asgi
pub mod AsgiServer
pub mod Connection
pub mod Decimal
pub mod Environ
pub mod HeaderCache
pub mod HeaderSyntax
pub mod Pools
pub mod Prelude
pub mod Response
pub mod Sizes
pub mod Startup
pub mod TicketRing
pub mod TlsServer
pub mod TlsWrite
pub mod Wsgi
