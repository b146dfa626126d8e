-- ===== src/HttpProxy/PairTests.antt =====
-- Runs of the two sides of the proxy of src/main.cpp, and the theorems at them.
use epoller.Prelude.{arith, ◌≡◌, ◌⊎◌, refl, true, false, [], ◌∷◌, Bytes, some}
use epoller.HttpProxy.{Remote, write_complete}
use epoller.HttpProxy.Lines.{header_of}
use epoller.HttpProxy.Client.{Client, reply, queue_write}
use epoller.HttpProxy.Passed.{Relays}
use epoller.HttpProxy.Pair.{
  Serving, starts, client_sends, server_sends, server_opens, server_completes, server_received,
}
use epoller.HttpProxy.Answered.{Gets}
use epoller.HttpProxy.Flushed.{AllQueued, Serving-Gets}
use epoller.HttpProxy.Tests.{two_lines, connect_lines, connect_run, new_client, new_remote}

-- A CONNECT has been received, the stream to the server has been made, a write on it has been complete, and
-- the server has sent two bytes.
abbrev waiting : Remote
waiting = record new_remote { init_write = 7 ∷ []; stream = true }

abbrev tunnel : Client
tunnel = record new_client {
  header = 7 ∷ [];
  remote = some (record waiting { init_write = []; queued = (7 ∷ []) ∷ [] });
  queued = reply ∷ (8 ∷ 9 ∷ []) ∷ [];
  created = (b'a' ∷ [], 443) ∷ [];
}

abbrev two_bytes : Bytes
two_bytes = 8 ∷ 9 ∷ []

tunnel-Serving : Serving connect_lines two_bytes true tunnel
unfolding server_received queue_write write_complete
tunnel-Serving =
    server_sends (record waiting { init_write = []; queued = (7 ∷ []) ∷ [] }) two_bytes
      (server_completes waiting
        (server_opens true
          (client_sends 0 connect_lines (starts new_client.remote_dest) (omega arith) connect_run))
        refl)
      refl

Serving-Gets_example :
    (true ≡ true)
    × Relays connect_lines tunnel
    × Gets two_bytes tunnel
    × ((true ≡ false) ⊎ AllQueued tunnel)
Serving-Gets_example = Serving-Gets connect_lines two_bytes true tunnel tunnel-Serving

-- A request has been passed on, and its Remote is gone.
abbrev left_alone : Client
left_alone = record new_client { header = header_of two_lines; created = (b'a' ∷ [], 80) ∷ [] }
