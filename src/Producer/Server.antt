-- ===== src/Producer/Server.antt =====
-- handlers/producer.go: `Start` and `Shutdown`. The server is that of net/http: what its calls come to
-- is an argument.
use edgedelta_lambda_extensi.Common.{
  Bool, Option, none, some, List, [], ◌∷◌, ◌++◌, ℤ, pos, if◌then◌else◌,
}
use edgedelta_lambda_extensi.Text.Bytes.{Bytes, codes}

-- `DefaultHttpListenerPort`
abbrev default_http_listener_port : Bytes
default_http_listener_port = codes "6060"

pub record Producer : Type 0 where
  -- The address of the server; `none` is nil.
  pub server : Option Bytes

unfoldable pub new_producer : Producer
new_producer = record { server = none }

pub data ServerCall : Type 0 where
  -- `http.HandleFunc("/", p.handleLogs)`
  handle_root : ServerCall
  -- `p.server.ListenAndServe()`, in its goroutine
  listen_and_serve : Bytes → ServerCall
  -- `p.server.Shutdown(ctx)`, with the timeout of its context in nanoseconds
  shut_down : ℤ → ServerCall

unfoldable pub start : Producer → Producer × List ServerCall
start p =
    let address = codes "0.0.0.0:" ++ default_http_listener_port in
    (record p { server = some address }, handle_root ∷ listen_and_serve address ∷ [])

-- The Boolean is whether the server's own shutdown returns no error.
unfoldable pub shutdown : ℤ → Bool → Producer → Producer × List ServerCall
shutdown timeout graceful p = elim p.server [
  | none ↦ (p, [])
  | some address ↦ (if graceful then record p { server = none } else p, shut_down timeout ∷ [])
]

-- Behind `ListenAndServe`. The first Boolean is whether its error is `http.ErrServerClosed`.
unfoldable pub listened : Bool → Bool → Producer → Producer × List ServerCall
unfolding shutdown
listened closed graceful p = if closed then (p, []) else shutdown (pos 10_000_000) graceful p
