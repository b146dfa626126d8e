-- ===== src/TcpStream/Resumed.antt =====
-- src/tcpstream.cpp: whether a stream with a limit on its rate goes on.
use epoller.Prelude.{
  ℕ, ◌+◌, ◌-◌, ◌≡◌, ◌<◌, ◌⊎◌, refl, sym, ap, ◌∙◌, inl, inr, true, false, not, ◌&&◌, ◌==◌, [], ◌∷◌,
  ◌++◌, Bytes, some, arith, Bool-cases,
}
use epoller.TcpStream.Defs.{
  Stream, Round, trigger_writes, begin_write, queue_write, async_egress, sent, emit, disconnect,
}
use epoller.TcpStream.Life.{create_accepted}
use epoller.TcpStream.Link.{
  is_trigger, is_egress, made, Link, after, Step, queues, adds, fires, resumes, runs, polls, drops,
  disconnects, on_its_way, in_map, Reach, created, next,
}
use epoller.TcpStream.Handled.{handle_write-Leaves}
use epoller.TcpStream.Rounds.{Leaves, Refuses}
use epoller.TcpStream.Egress.{made-emit, async_egress-emit, Single, Reach-Single, limited_waits_not}
use epoller.TcpStream.Kept.{handle_write-disconnecting, queue_write-disconnecting}

-- A kernel that refuses no write.
abbrev pub Takes : (ℕ → Bytes → Round) → Type 0
Takes kernel = (k : ℕ) (bytes : Bytes) → (n : ℕ) × ((kernel k bytes).result ≡ sent n)

Takes-Refuses : (kernel : ℕ → Bytes → Round) → Takes kernel → ¬ Refuses kernel
Takes-Refuses kernel takes (k, bytes, inl blocks) =
    let (n, takes') = takes k bytes in ground (arith, blocks, takes')
Takes-Refuses kernel takes (k, bytes, inr fails) =
    let (n, takes') = takes k bytes in ground (arith, fails, takes')

-- Nothing is queued or something is on its way, and without that the stream may trigger a write; and
-- before create has added the stream, nothing is on its way.
pub record Goes (l : Link) : Type 0 where
  pub moves : (l.stream.write_queue ≡ []) ⊎ (0 < on_its_way l)
  pub free : on_its_way l ≡ 0 → (l.stream.blocked ≡ false) × (l.stream.write_triggered ≡ false)
  pub here : 0 < on_its_way l → l.added ≡ true

after_pos :
    (s' : Stream) (l : Link)
    → in_map l ≡ true
    → 0 < on_its_way l + made is_egress l.stream s' + made is_trigger l.stream s'
    → 0 < on_its_way (after s' l)
after_pos s' l here h = ground (arith, here, h, Bool-cases l.timer)

after_more : (s' : Stream) (l : Link) → 0 < on_its_way l → 0 < on_its_way (after s' l)
after_more s' l h = ground (arith, h, Bool-cases l.timer)

after_idle : (l : Link) → on_its_way (after l.stream l) ≡ on_its_way l
after_idle l = ground (arith, Bool-cases l.timer, Bool-cases l.added)

pos-Goes : (l : Link) → l.added ≡ true → 0 < on_its_way l → Goes l
pos-Goes l here h = record {
  moves = inr h;
  free = λ idle. absurd (omega (arith, h, idle));
  here = λ i. here;
}

-- A stream that may trigger a write does.
queue_write-triggers :
    (b : ℕ) (bs : Bytes) (s : Stream)
    → s.connected ≡ true
    → s.blocked ≡ false
    → s.write_triggered ≡ false
    → made is_trigger s (queue_write (b ∷ bs) s) ≡ 1
unfolding queue_write
queue_write-triggers b bs s open_stream free unmarked =
    let t : Stream = record s {
      write_queue = s.write_queue ++ (b ∷ bs) ∷ [];
      write_triggered = true;
    } in
    let goes : (s.connected && not s.blocked && not s.write_triggered) ≡ true =
      ground (arith, open_stream, free, unmarked) in
    rw goes (made-emit is_trigger trigger_writes t)

-- Where the stream has triggered no write before it was added, and is not disconnected, a write that it
-- triggers is on its way.
queue_write-Goes :
    (bytes : Bytes) (l : Link)
    → l.stream.connected ≡ true
    → l.stream.disconnecting ≡ false
    → (after (queue_write bytes l.stream) l).early ≡ false
    → Goes l
    → Goes (after (queue_write bytes l.stream) l)
queue_write-Goes [] l open_stream stays late g =
    unfold queue_write in
    record {
      moves = elim g.moves [
        | inl empty ↦ inl empty
        | inr moves ↦ inr (after_more l.stream l moves)
      ];
      free = λ idle. g.free (omega (arith, after_idle l, idle));
      here = λ h. g.here (omega (arith, after_idle l, h));
    }
queue_write-Goes (b ∷ bs) l open_stream stays late g =
    let s' = queue_write (b ∷ bs) l.stream in
    elim (Bool-cases (on_its_way l == 0)) [
      | inr busy ↦
          let h : 0 < on_its_way l = ground (arith, busy) in
          pos-Goes (after s' l) (g.here h) (after_more s' l h)
      | inl none_left ↦
          let (free, unmarked) = g.free (ground (arith, none_left)) in
          let trigger = queue_write-triggers b bs l.stream open_stream free unmarked in
          let here : l.added ≡ true = ground (arith, late, trigger, Bool-cases l.added) in
          pos-Goes (after s' l) here
            (after_pos s' l (ground (arith, here, stays)) (omega (arith, trigger)))
    ]

resumes-Goes :
    (l : Link) (s' : Stream)
    → l.added ≡ true
    → l.stream.disconnecting ≡ false
    → async_egress l.stream ≡ some s'
    → Goes (after s' (record l { fired = l.fired - 1 }))
resumes-Goes l s' here stays e =
    let l' : Link = record l { fired = l.fired - 1 } in
    let (end, mark) = async_egress-emit l.stream s' e in
    let trigger = made-emit is_trigger trigger_writes l.stream in
    rw end (
      pos-Goes (after (emit trigger_writes l.stream) l') here (
        after_pos (emit trigger_writes l.stream) l' (ground (arith, here, stays))
          (omega (arith, trigger))))

runs-Goes :
    (l : Link) (s' : Stream) (kernel : ℕ → Bytes → Round)
    → l.added ≡ true
    → l.stream.disconnecting ≡ false
    → Takes kernel
    → Leaves kernel (begin_write l.stream) s'
    → Goes (after s' (record l { writes = l.writes - 1 }))
runs-Goes l s' kernel here stays takes
      (open_stream, rate, trigger, inl (egress, mark, inl (empty, free))) =
    record { moves = inl empty; free = λ idle. (free, mark); here = λ h. here }
runs-Goes l s' kernel here stays takes
      (open_stream, rate, trigger, inl (egress, mark, inr refused)) =
    absurd (Takes-Refuses kernel takes refused)
runs-Goes l s' kernel here stays takes (open_stream, rate, trigger, inr (egress, mark)) =
    let l' : Link = record l { writes = l.writes - 1 } in
    pos-Goes (after s' l') here
      (after_pos s' l' (ground (arith, here, stays)) (omega (arith, egress)))

-- The stream has triggered no write before it was added, and is not disconnected.
abbrev Proper : Link → Type 0
Proper l = (l.early ≡ false) × (l.stream.disconnecting ≡ false)

after-Proper :
    (s' : Stream) (l : Link)
    → s'.disconnecting ≡ l.stream.disconnecting
    → Proper (after s' l)
    → Proper l
after-Proper s' l same (late, stays) = (ground (arith, late, Bool-cases l.early), sym same ∙ stays)

disconnect-disconnecting : (s : Stream) → (disconnect s).disconnecting ≡ true
unfolding disconnect
disconnect-disconnecting s = ground (arith, Bool-cases s.disconnecting)

Step-Goes :
    (l l' : Link)
    → Step Takes l l'
    → Single l
    → Proper l'
    → (Proper l → Goes l)
    → Proper l × Goes l'
Step-Goes l _ (queues bytes) s p g =
    let p0 =
      after-Proper (queue_write bytes l.stream) l (queue_write-disconnecting bytes l.stream) p in
    (p0, queue_write-Goes bytes l s.open_stream p0.1 p.0 (g p0))
Step-Goes l _ (adds new) s p g =
    let g0 = g p in (p, record { moves = g0.moves; free = g0.free; here = λ h. refl })
Step-Goes l l' (fires set) s p g =
    (p, pos-Goes l' ((g p).here (ground (arith, set))) (ground (arith, set)))
Step-Goes l _ (resumes {s'} one e) s p g =
    let l1 : Link = record l { fired = l.fired - 1 } in
    let same = ap (λ (x : Stream). x.disconnecting) (async_egress-emit l.stream s' e).0 in
    let p0 : Proper l = after-Proper s' l1 same p in
    (p0, resumes-Goes l s' ((g p0).here (omega (arith, one))) p0.1 e)
Step-Goes l _ (runs {s'} kernel fuel one takes e) s p g =
    let l1 : Link = record l { writes = l.writes - 1 } in
    let same = handle_write-disconnecting kernel fuel l.stream s' e in
    let p0 : Proper l = after-Proper s' l1 same p in
    (
      p0,
      runs-Goes l s' kernel ((g p0).here (omega (arith, one))) p0.1 takes
          (handle_write-Leaves kernel fuel l.stream s' s.open_stream e),
    )
Step-Goes l _ (polls kernel fuel here waits takes e) s p g =
    absurd (ground (arith, waits, limited_waits_not l.stream s.open_stream s.limited))
Step-Goes l _ (drops one gone) s p g = absurd (ground (arith, gone, p.1))
Step-Goes l _ (disconnects here) s p g =
    absurd (ground (arith, disconnect-disconnecting l.stream, p.1))

Reach-Goes : (now : ℕ) (l : Link) → Reach Takes (create_accepted now) l → Proper l → Goes l
unfolding create_accepted
Reach-Goes now l created p = record {
  moves = inl refl;
  free = λ idle. (refl, refl);
  here = λ h. absurd (omega (arith, h));
}
Reach-Goes now l' (next {l} r step) p =
    (Step-Goes l l' step (Reach-Single now l r) p (Reach-Goes now l r)).1

-- Where the kernel refuses no write, a stream that has been accepted, that has triggered no write before
-- create has added it to the engine, and that has not been disconnected, has, while bytes are queued,
-- exactly one thing on its way that brings it back to them: its egress timer, an event that runs
-- asyncEgress, or one that runs handleWrite.
pub limited_stream_goes_on :
    (now : ℕ) (l : Link)
    → Reach Takes (create_accepted now) l
    → l.early ≡ false
    → l.stream.disconnecting ≡ false
    → (l.stream.write_queue ≡ []) ⊎ (on_its_way l ≡ 1)
limited_stream_goes_on now l r late stays = elim (Reach-Goes now l r (late, stays)).moves [
  | inl empty ↦ inl empty
  | inr moves ↦ inr (omega (arith, moves, (Reach-Single now l r).once))
]
