-- ===== src/Socket/Client.antt =====
-- NewClientContext (seer/ws.go). `Net` is url.Parse, URL.String and the websocket dialer, of which a
-- connection remembers the address.
use Prim.Native.String.{[], ◌∷◌}
use Prim.Native.Char.{code}
use tenderduty_nos.Prelude.{
  String, ◌<>◌, Bool, true, false, not, ◌&&◌, ◌||◌, if◌then◌else◌, ◌==◌, Option, none, some, str_eq,
  Reply, got, failed,
}

pub record Url : Type 0 where
  pub scheme : String
  pub rest : String

-- `blank` is the zero websocket.Conn, which was never dialed.
pub data Connection : Type 0 where
  dialed : String → Connection
  blank : Connection

pub record Net : Type 0 where
  pub parse : String → Reply Url
  pub render : Url → String
  pub dial : String → Option String

-- `strings.TrimRight(u, "/")`
unfoldable pub trim_slashes : String → String
trim_slashes [] = ""
trim_slashes (c ∷ s) =
    let rest = trim_slashes s in if str_eq rest "" && (code c == 47) then "" else c ∷ rest

-- `strings.HasSuffix`
unfoldable pub has_suffix : String → String → Bool
has_suffix [] suffix = str_eq "" suffix
has_suffix (c ∷ s) suffix = str_eq (c ∷ s) suffix || has_suffix s suffix

abbrev pub websocket_path : String
websocket_path = "/websocket"

-- The path of the endpoint: some public ones have a prefix such as /rpc.
unfoldable pub websocket_url : String → String
unfolding trim_slashes has_suffix
websocket_url u =
    let u' = trim_slashes u in if has_suffix u' websocket_path then u' else u' <> websocket_path

-- The scheme to dial with, and whether the endpoint is a Unix socket.
unfoldable pub websocket_scheme : String → Option (String × Bool)
websocket_scheme s =
    if str_eq s "http" || (str_eq s "tcp" || str_eq s "ws")
    then some ("ws", false)
    else if str_eq s "unix"
    then some ("ws", true)
    else if str_eq s "https" || str_eq s "wss"
    then some ("wss", false)
    else none

-- `switch { case dialUnix: default: ... }`, where nothing is dialed for a Unix socket.
unfoldable pub open_connection : Net → Bool → String → Reply Connection
open_connection n dial_unix address = if dial_unix then got blank else elim (n.dial address) [
  | some e ↦ failed ("could not dial ws client to " <> (address <> (": " <> e)))
  | none ↦ got (dialed address)
]

unfoldable pub new_client : Net → String → Bool → Reply Connection
unfolding websocket_url websocket_scheme open_connection
new_client n u allow_insecure =
    let u' = websocket_url u in
    elim (n.parse u') [
      | failed e ↦ failed ("parsing url in NewWsClient " <> (u' <> (": " <> e)))
      | got endpoint ↦ elim (websocket_scheme endpoint.scheme) [
        | none ↦ failed (
            "protocol "
            <> (endpoint.scheme
                <> " is unknown, valid choices are http, https, tcp, unix, ws, and wss"))
        | some (scheme, dial_unix) ↦
            if str_eq scheme "ws" && not allow_insecure
            then failed "allowInsecure must be true if protocol is not using TLS"
            else open_connection n dial_unix (n.render (record endpoint { scheme = scheme }))
      ]
    ]
