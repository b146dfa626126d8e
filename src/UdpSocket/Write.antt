-- ===== src/UdpSocket/Write.antt =====
-- src/udpsocket.cpp: what the loop of handleWrite does.
use epoller.Prelude.{
  ℕ, zero, suc, ◌+◌, ◌<◌, ◌≡◌, ◌⊎◌, refl, sym, ap, ◌∙◌, inl, inr, List, [], ◌∷◌, ◌++◌, append_assoc,
  append-nil, none, some, length, arith, List-cases,
}
use epoller.UdpSocket.{
  Datagram, SendResult, sent, would_block, failed, UdpSocket, Told, not_sent, write_complete,
  do_write, handle_write,
}

-- The answer takes the datagram whole or fails: a datagram is never taken in part.
abbrev IsWhole : SendResult → Datagram → Type 0
IsWhole r d = (r ≡ sent (length d.data')) ⊎ (r ≡ failed)

-- A kernel that never asks to try again.
abbrev pub IsReady : (ℕ → Datagram → SendResult) → Type 0
IsReady kernel =
    (k : ℕ) (d : Datagram) → (kernel k d ≡ sent (length d.data')) ⊎ (kernel k d ≡ failed)

-- What the client is to be told of the datagrams that fail, where datagram number `k` heads the list.
abbrev report : SendResult → Datagram → List Told
report (sent n) d = []
report would_block d = []
report failed d = not_sent d ∷ []

abbrev pub reports : (ℕ → Datagram → SendResult) → ℕ → List Datagram → List Told
reports kernel k [] = []
reports kernel k (d ∷ ds) = report (kernel k d) d ++ reports kernel (k + 1) ds

do_write_ready :
    (r : SendResult) (d : Datagram) (rest : List Datagram) (told : List Told)
    → IsWhole r d
    → do_write r d (record { write_queue = rest; told = told })
      ≡ record { write_queue = rest; told = told ++ report r d }
unfolding do_write
do_write_ready r d rest told (inl whole) = rw whole (ground (arith, append-nil told))
do_write_ready r d rest told (inr lost) = rw lost

-- With a kernel that never asks to try again handleWrite ends, after one sendto() for each queued
-- datagram, in their order: the queue is empty, and the client is told of each datagram that failed, in
-- their order, and then that the write is complete.
pub handle_write_ready :
    (kernel : ℕ → Datagram → SendResult) (fuel k : ℕ) (queue : List Datagram) (told : List Told)
    → IsReady kernel
    → length queue < fuel
    → handle_write kernel fuel k (record { write_queue = queue; told = told })
      ≡ some (record {
        write_queue = [];
        told = told ++ (reports kernel k queue ++ write_complete ∷ []);
      })
unfolding handle_write
handle_write_ready kernel zero k queue told w h = absurd (omega arith)
handle_write_ready kernel (suc fuel) k [] told w h = refl
handle_write_ready kernel (suc fuel) k (d ∷ queue) told w h =
    let more = reports kernel (k + 1) queue in
    rw (do_write_ready (kernel k d) d queue told (w k d)) (
      handle_write_ready kernel fuel (k + 1) queue (told ++ report (kernel k d) d) w (omega arith)
      ∙ ap (λ ts. some (record { write_queue = []; told = ts }))
          (append_assoc told (report (kernel k d) d) (more ++ write_complete ∷ [])
            ∙ ap (λ ts. told ++ ts)
                (sym (append_assoc (report (kernel k d) d) more (write_complete ∷ [])))))

-- While the kernel asks to try again, handleWrite does not end: it takes a datagram from the front of
-- the queue and puts it at the back, again and again, however many rounds it is given.
pub handle_write_spins :
    (kernel : ℕ → Datagram → SendResult) (fuel k : ℕ) (s : UdpSocket) (d : Datagram)
    (rest : List Datagram)
    → ((j : ℕ) (x : Datagram) → kernel j x ≡ would_block)
    → s.write_queue ≡ d ∷ rest
    → handle_write kernel fuel k s ≡ none
unfolding handle_write do_write
handle_write_spins kernel zero k s d rest w q = refl
handle_write_spins kernel (suc fuel) k s d rest w q = elim (List-cases (rest ++ d ∷ [])) [
  | inl empty ↦ absurd (ground (arith, List-cases rest))
  | inr (d', rest', more) ↦
      let s' : UdpSocket = record s { write_queue = rest ++ d ∷ [] } in
      ground (arith, q, w k d, handle_write_spins kernel fuel (k + 1) s' d' rest' w more)
]
