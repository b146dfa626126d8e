-- ===== src/Echo/Echoes.antt =====
-- src/main.cpp and src/tcpstream.cpp: what TcpEcho sends back.
use epoller.Prelude.{
  flat, ℕ, ◌≡◌, refl, sym, ap, ◌∙◌, List, [], ◌∷◌, ◌++◌, Bytes, some, All, arith, append_assoc,
  append-nil, Bool-cases, >>=-eq-some,
}
use epoller.TcpStream.Defs.{Stream, failed, handle_read, queue_write, disconnect}
use epoller.TcpStream.Queue.{output}
use epoller.TcpStream.Output.{handle_write-output, queue_write-output}
use epoller.Echo.{
  Act, reads, writes, completes, disconnects, act, act_all, received, write_complete,
}

-- No write of the kernel fails.
abbrev pub NeverFails : Act → Type 0
NeverFails (writes kernel fuel) = (k : ℕ) (bytes : Bytes) → ¬ ((kernel k bytes).result ≡ failed)
NeverFails _ = Unit {0}

-- The bytes that are read.
abbrev pub read_by : List Act → Bytes
read_by [] = []
read_by (reads x now ∷ acts) = x ++ read_by acts
read_by (_ ∷ acts) = read_by acts

handle_read-output :
    (x : Bytes) (now : ℕ) (s : Stream) → output (handle_read ((x, now) ∷ []) s) ≡ output s
unfolding handle_read
handle_read-output [] now s = refl
handle_read-output (b ∷ bs) now s = refl

disconnect-output : (s : Stream) → output (disconnect s) ≡ output s
unfolding disconnect
disconnect-output s = ground (arith, Bool-cases s.disconnecting)

act-output :
    (a : Act) (s s' : Stream)
    → NeverFails a
    → act a s ≡ some s'
    → output s' ≡ output s ++ read_by (a ∷ [])
unfolding act received write_complete
act-output (reads x now) s s' sound e =
    let t = handle_read ((x, now) ∷ []) s in
    let same : queue_write x t ≡ s' = ground (arith, e) in
    ap output (sym same)
    ∙ queue_write-output x t
    ∙ ap (λ y. y ++ x) (handle_read-output x now s)
    ∙ ap (λ y. output s ++ y) (sym (append-nil x))
act-output (writes kernel fuel) s s' sound e =
    handle_write-output kernel fuel s s' sound e ∙ sym (append-nil (output s))
act-output completes s s' sound e =
    let same : s ≡ s' = ground (arith, e) in ap output (sym same) ∙ sym (append-nil (output s))
act-output disconnects s s' sound e =
    let same : disconnect s ≡ s' = ground (arith, e) in
    ap output (sym same) ∙ disconnect-output s ∙ sym (append-nil (output s))

read_by-cons : (a : Act) (acts : List Act) → read_by (a ∷ []) ++ read_by acts ≡ read_by (a ∷ acts)
read_by-cons (reads x now) acts = ap (λ y. y ++ read_by acts) (append-nil x)
read_by-cons (writes kernel fuel) acts = refl
read_by-cons completes acts = refl
read_by-cons disconnects acts = refl

-- As long as no write of the kernel fails, what the kernel has taken of the stream of a TcpEcho and what is
-- queued on it are together what they were at first and then all that has been read, in that order,
-- however reads, writes and a disconnect come.
pub act_all_echoes :
    (acts : List Act) (s s' : Stream)
    → All NeverFails acts
    → act_all acts s ≡ some s'
    → s'.taken ++ flat s'.write_queue ≡ (s.taken ++ flat s.write_queue) ++ read_by acts
unfolding act_all
act_all_echoes [] s s' sound e =
    let same : s ≡ s' = ground (arith, e) in ap output (sym same) ∙ sym (append-nil (output s))
act_all_echoes (a ∷ acts) s s' sound e =
    let (t, first, later) = >>=-eq-some (act a s) (act_all acts) e in
    act_all_echoes acts t s' sound.1 later
    ∙ ap (λ y. y ++ read_by acts) (act-output a s t sound.0 first)
    ∙ append_assoc (output s) (read_by (a ∷ [])) (read_by acts)
    ∙ ap (λ y. output s ++ y) (read_by-cons a acts)
