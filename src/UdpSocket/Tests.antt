-- ===== src/UdpSocket/Tests.antt =====
-- Runs of src/udpsocket.cpp, and the theorems at them.
use epoller.Prelude.{
  ℕ, ◌≡◌, refl, true, inl, inr, [], ◌∷◌, none, some, arith, length, ◌==◌, if◌then◌else◌, Bool-cases,
}
use epoller.IpAddr.{InetDest}
use epoller.UdpSocket.{
  Datagram, SendResult, sent, would_block, failed, handle_write, not_sent, write_complete,
}
use epoller.UdpSocket.Write.{IsReady, handle_write_ready, handle_write_spins}

abbrev nowhere : InetDest
nowhere = record { addr = record { d = [] }; valid = true; port = 53; if_index = 0 }

abbrev datagram_a : Datagram
datagram_a = record { dest = nowhere; data' = 1 ∷ 2 ∷ 3 ∷ [] }

abbrev datagram_b : Datagram
datagram_b = record { dest = nowhere; data' = 4 ∷ 5 ∷ [] }

-- The second sendto() fails.
abbrev second_fails : ℕ → Datagram → SendResult
second_fails k d = if k == 1 then failed else sent (length d.data')

second_fails-IsReady : IsReady second_fails
second_fails-IsReady k d = elim (Bool-cases (k == 1)) [ inl e ↦ inr (rw e) | inr e ↦ inl (rw e) ]

handle_write_ready_example :
    handle_write second_fails 3 0 (record { write_queue = datagram_a ∷ datagram_b ∷ []; told = [] })
    ≡ some (record { write_queue = []; told = not_sent datagram_b ∷ write_complete ∷ [] })
handle_write_ready_example =
    handle_write_ready second_fails 3 0 (datagram_a ∷ datagram_b ∷ []) [] second_fails-IsReady
      (omega arith)

handle_write_spins_example :
    handle_write
      (λ k d. would_block)
      1000
      0
      (record { write_queue = datagram_a ∷ datagram_b ∷ []; told = [] })
    ≡ none
handle_write_spins_example =
    handle_write_spins (λ k d. would_block) 1000 0
      (record { write_queue = datagram_a ∷ datagram_b ∷ []; told = [] }) datagram_a
      (datagram_b ∷ []) (λ j x. refl) refl
