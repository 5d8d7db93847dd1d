-- ===== src/Socket/Endpoint.antt =====
-- Which address NewClientContext dials (seer/ws.go).
use Prim.Native.String.{[], ◌∷◌}
use Prim.Native.String.append
use mathlib.Core.Bool.{false≢true}
use tenderduty_nos.Prelude.{
  String, ◌<>◌, Bool, true, false, ◌||◌, ◌≡◌, ◌⊎◌, inl, inr, refl, sym, ◌∙◌, subst, none, some,
  str_eq, str_eq→eq, str_eq_refl, str_ne, Bool-cases, Option-cases, got, Reply-cases, arith,
}
use tenderduty_nos.Socket.Client.{
  Url, Connection, dialed, blank, Net, trim_slashes, has_suffix, websocket_path, websocket_url,
  websocket_scheme, open_connection, new_client,
}

has_suffix_self : (t : String) → has_suffix t t ≡ true
unfolding has_suffix
has_suffix_self [] = str_eq_refl ""
has_suffix_self (c ∷ t) = rw (has_suffix, str_eq_refl (c ∷ t)) refl

has_suffix-append : (s t : String) → has_suffix (s <> t) t ≡ true
unfolding has_suffix
has_suffix-append [] t = rw (append.nil t) (has_suffix_self t)
has_suffix-append (c ∷ s) t = rw (append.cons c s t) (ground (arith, has_suffix-append s t))

empty_suffix : str_eq "" websocket_path ≡ false
empty_suffix = str_ne "" websocket_path (λ e. cc)

trim_slashes_path : trim_slashes websocket_path ≡ websocket_path
unfolding trim_slashes str_eq
trim_slashes_path = refl

path_filled : str_eq websocket_path "" ≡ false
path_filled = str_ne websocket_path "" (λ e. cc)

-- An address with the websocket's path does not end in a slash.
trim_slashes-suffix :
    (s : String) → has_suffix s websocket_path ≡ true → (trim_slashes s ≡ s) × (str_eq s "" ≡ false)
unfolding has_suffix trim_slashes
trim_slashes-suffix [] h = absurd (false≢true (sym empty_suffix ∙ h))
trim_slashes-suffix (c ∷ s) h = elim (Bool-cases (str_eq (c ∷ s) websocket_path)) [
  | inl e ↦
      subst (λ t. (trim_slashes t ≡ t) × (str_eq t "" ≡ false))
        (sym (str_eq→eq (c ∷ s) websocket_path e)) (trim_slashes_path, path_filled)
  | inr e ↦
      let (same, filled) = trim_slashes-suffix s (ground (arith, h, e)) in
      (rw (trim_slashes, same, filled) refl, str_ne (c ∷ s) "" (λ e. cc))
]

-- The address to dial ends in the websocket's path, and is the address of its own.
pub websocket_url-stable :
    (u : String)
    → (has_suffix (websocket_url u) websocket_path ≡ true)
      × (websocket_url (websocket_url u) ≡ websocket_url u)
unfolding websocket_url
websocket_url-stable u = elim (Bool-cases (has_suffix (trim_slashes u) websocket_path)) [
  | inl e ↦
      rw (websocket_url, e)
        (e, rw (websocket_url, (trim_slashes-suffix (trim_slashes u) e).0, e) refl)
  | inr e ↦
      let f = has_suffix-append (trim_slashes u) websocket_path in
      rw (websocket_url, e)
        (
          f,
          rw (websocket_url, (trim_slashes-suffix (trim_slashes u <> websocket_path) f).0, f) refl,
        )
]

websocket_scheme-cases :
    (s : String)
    → (websocket_scheme s ≡ none)
      ⊎ ((websocket_scheme s ≡ some ("ws", false))
          ⊎ (((websocket_scheme s ≡ some ("ws", true)) × (s ≡ "unix"))
              ⊎ (websocket_scheme s ≡ some ("wss", false))))
unfolding websocket_scheme
websocket_scheme-cases s =
    elim (Bool-cases (str_eq s "http" || (str_eq s "tcp" || str_eq s "ws"))) [
      | inl e ↦ inr (inl (rw e refl))
      | inr e ↦ elim (Bool-cases (str_eq s "unix")) [
        | inl f ↦ inr (inr (inl (rw (e, f) refl, str_eq→eq s "unix" f)))
        | inr f ↦ elim (Bool-cases (str_eq s "https" || str_eq s "wss")) [
          | inl g ↦ inr (inr (inr (rw (e, f, g) refl)))
          | inr g ↦ inl (rw (e, f, g) refl)
        ]
      ]
    ]

-- The connection that stands for an endpoint: dialed with the scheme, or blank for a Unix socket.
pub IsOpened : Net → Url → String → Connection → Type 0
IsOpened n endpoint scheme connection =
    let address = n.render (record endpoint { scheme = scheme }) in
    ((connection ≡ dialed address) × (n.dial address ≡ none))
    ⊎ ((connection ≡ blank) × (endpoint.scheme ≡ "unix"))

open_connection-got :
    (n : Net) (address : String) (connection : Connection)
    → open_connection n false address ≡ got connection
    → (connection ≡ dialed address) × (n.dial address ≡ none)
unfolding open_connection
open_connection-got n address connection h = elim (Option-cases (n.dial address)) [
  | inl e ↦ (ground (arith, h, e), e)
  | inr (t, e) ↦ absurd (ground (arith, h, e))
]

wss_ne : str_eq "wss" "ws" ≡ false
unfolding str_eq
wss_ne = refl

-- A client is got only for an address that parses, with the scheme ws where it is insecure and that is
-- allowed, or wss; and it was dialed with that scheme, or it is for a Unix socket and was not dialed.
pub new_client-got :
    (n : Net) (u : String) (allow_insecure : Bool) (connection : Connection)
    → new_client n u allow_insecure ≡ got connection
    → (endpoint : Url) × (scheme : String) × (n.parse (websocket_url u) ≡ got endpoint)
      × (((scheme ≡ "ws") × (allow_insecure ≡ true)) ⊎ (scheme ≡ "wss"))
      × IsOpened n endpoint scheme connection
unfolding new_client IsOpened
new_client-got n u allow connection h = elim (Reply-cases (n.parse (websocket_url u))) [
  | inr (e, p) ↦ absurd (ground (arith, h, p))
  | inl (endpoint, p) ↦ elim (websocket_scheme-cases endpoint.scheme) [
    | inl q ↦ absurd (ground (arith, h, p, q))
    | inr (inl q) ↦ elim (Bool-cases allow) [
      | inr shut ↦ absurd (ground (arith, h, p, q, shut, str_eq_refl "ws"))
      | inl e ↦ (
        endpoint,
        "ws",
        p,
        inl (refl, e),
        inl (open_connection-got n _ connection (ground (arith, h, p, q, e))),
      )
    ]
    | inr (inr (inl (q, unix))) ↦ elim (Bool-cases allow) [
      | inr shut ↦ absurd (ground (arith, h, p, q, shut, str_eq_refl "ws"))
      | inl e ↦ (endpoint, "ws", p, inl (refl, e), inr (ground (arith, h, p, q, e), unix))
    ]
    | inr (inr (inr q)) ↦ (
      endpoint,
      "wss",
      p,
      inr refl,
      inl (open_connection-got n _ connection (ground (arith, h, p, q, wss_ne))),
    )
  ]
]
