-- ===== src/Resolver/Udp.antt =====
-- src/resolverimpl.cpp and src/resolver.cpp: class UdpResolver, which asks the name server and hands its answer
-- on, and class Resolver in front of ResolverImpl.
use epoller.Prelude.{ℕ, Bool, List, [], ◌∷◌, Bytes, Option, none, some, if◌then◌else◌, ◌>>=◌}
use epoller.Query.Message
use epoller.Query.Response.{decode}
use epoller.Resolver.Names.{AddrPref}
use epoller.Resolver.Requests.{ResolverImpl, disconnects, note, request_complete, resolve}

-- class UdpResolver; `socket` is whether its UdpSocket exists.
pub record UdpResolver : Type 0 where
  pub request_no : ℕ
  pub name : Bytes
  pub q_type : ℕ
  pub socket : Bool

-- disconnect.
unfoldable pub disconnect : UdpResolver → ResolverImpl → ResolverImpl
disconnect u s = if u.socket then note (disconnects u.request_no) s else s

-- connected: the query that is queued on the socket.
unfoldable pub connected : UdpResolver → List Bytes
connected u = if u.socket then Message.resolve u.request_no u.name u.q_type ∷ [] else []

-- received; `none` where decode reads out of the message.
unfoldable pub received : (ℕ → ℕ) → Bytes → UdpResolver → ResolverImpl → Option ResolverImpl
unfolding disconnect
received now w u s = decode now w >>= λ ans. request_complete u.request_no ans (disconnect u s)

-- requestError, which only logs, and notSent.
unfoldable pub request_error : ℕ → ResolverImpl → ResolverImpl
request_error req_no s = s

unfoldable pub not_sent : UdpResolver → ResolverImpl → ResolverImpl
unfolding disconnect request_error
not_sent u s = request_error u.request_no (disconnect u s)

-- cancel, which does nothing.
unfoldable pub cancel : ℕ → ResolverImpl → ResolverImpl
cancel client s = s

abbrev pub new_impl : ResolverImpl
new_impl = record { res_queries = []; by_name = []; request = 0; notes = [] }

-- Resolver: init, `none` for its exception, and the calls that it passes on while there is an
-- implementation.
unfoldable pub init : Option ResolverImpl → Option (Option ResolverImpl)
init none = some (some new_impl)
init (some s) = none

unfoldable pub resolver_resolve :
    ℕ → Bytes → AddrPref → ℕ → Option ResolverImpl → Option (Option ResolverImpl)
resolver_resolve client name prefs timeout none = some none
resolver_resolve client name prefs timeout (some s) =
    resolve client name prefs timeout s >>= λ s'. some (some s')

unfoldable pub resolver_cancel : ℕ → Option ResolverImpl → Option ResolverImpl
unfolding cancel
resolver_cancel client none = none
resolver_cancel client (some s) = some (cancel client s)

unfoldable pub destroy : Option ResolverImpl → Option ResolverImpl
destroy impl = none
