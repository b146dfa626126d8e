-- ===== src/TcpConn/Dest.antt =====
-- src/socket.cpp: the addresses that destFromString gives.
use epoller.Prelude.{ℕ, ◌≡◌, refl, true, [], ◌∷◌, ◌++◌, Bytes, some}
use epoller.Endian.{Host}
use epoller.IpAddr.{get}
use epoller.IpAddr.Mapped.{IsWords, mapped, get-set}
use epoller.TcpConn.{InetPton, mapped_text, dest_from_string}

-- inet_pton() stores whole words of bytes for IPv6, and for "::ffff:" in front of a text that it
-- takes for the IPv4 address of four bytes it stores the mapped address of those.
pub record IsInetPton (pton : InetPton) : Type 0 where
  pub words : (t b : Bytes) → pton.inet6 t ≡ some b → IsWords b
  pub maps :
      (t : Bytes) (a b c d : ℕ)
      → pton.inet t ≡ some (a ∷ b ∷ c ∷ d ∷ [])
      → pton.inet6 (mapped_text ++ t) ≡ some (mapped a b c d)

-- For the text of an IPv4 address destFromString gives a valid destination with the port that was asked
-- for, whose sixteen bytes are the mapped ones of the four.
dest_from_string_ipv4 :
    (pton : InetPton) (host : Host) (unset stale where' : Bytes) (port a b c d : ℕ)
    → IsInetPton pton
    → pton.inet where' ≡ some (a ∷ b ∷ c ∷ d ∷ [])
    → let dest = dest_from_string pton host unset stale where' port in
      (dest.valid ≡ true) × (get host dest.addr ≡ mapped a b c d) × (dest.port ≡ port)
unfolding dest_from_string
dest_from_string_ipv4 pton host unset stale where' port a b c d w e =
    let six = w.maps where' a b c d e in
    (
      rw (e, six),
      rw (e, six) (get-set host (w.words (mapped_text ++ where') (mapped a b c d) six)),
      refl,
    )
