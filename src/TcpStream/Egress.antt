-- ===== src/TcpStream/Egress.antt =====
-- src/tcpstream.cpp: a stream with a limit on the rate of what it sends, through the engine's timer and back.
use epoller.Prelude.{
  ℕ, ◌+◌, ◌-◌, ◌≡◌, ◌≤◌, ◌<◌, ◌⊎◌, refl, ◌∙◌, inl, inr, Bool, true, false, not, ◌&&◌, [], ◌∷◌, ◌++◌,
  Bytes, some, if◌then◌else◌, arith, Bool-cases, sym,
}
use epoller.TcpStream.Defs.{
  Stream, Round, trigger_writes, begin_write, queue_write, async_egress, emit, waiting_out_event,
  disconnect,
}
use epoller.TcpStream.Life.{create_accepted}
use epoller.TcpStream.Link.{
  is_trigger, is_egress, made, Link, after, Kernels, Step, queues, adds, fires, resumes, runs,
  polls, drops, disconnects, on_its_way, Reach, created, next,
}
use epoller.TcpStream.Handled.{handle_write-Leaves}
use epoller.TcpStream.Rounds.{count_emit, Leaves}

-- One thing is on its way at most, and the stream is marked as triggered while one is.
pub record Single (l : Link) : Type 0 where
  pub open_stream : l.stream.connected ≡ true
  pub limited : ¬ (l.stream.egress_rate ≡ 0)
  pub once : on_its_way l ≤ 1
  pub marked : 0 < on_its_way l → l.stream.write_triggered ≡ true

after_le :
    (s' : Stream) (l : Link)
    → on_its_way (after s' l)
      ≤ on_its_way l + made is_egress l.stream s' + made is_trigger l.stream s'
after_le s' l = ground (arith, Bool-cases l.timer, Bool-cases l.added)

after-Single :
    (s' : Stream) (l : Link)
    → s'.connected ≡ true
    → ¬ (s'.egress_rate ≡ 0)
    → on_its_way l + made is_egress l.stream s' + made is_trigger l.stream s' ≤ 1
    → (0 < on_its_way l + made is_egress l.stream s' + made is_trigger l.stream s'
        → s'.write_triggered ≡ true)
    → Single (after s' l)
after-Single s' l open_stream limited one mark = record {
  open_stream = open_stream;
  limited = limited;
  once = omega (arith, after_le s' l, one);
  marked = λ h. mark (omega (arith, after_le s' l, h));
}

-- What is emitted is counted.
pub made-emit : (p : _ → Bool) (f : _) (s : Stream) → made p s (emit f s) ≡ (if p f then 1 else 0)
made-emit p f s = omega (arith, count_emit p f s.effects)

-- What queueWrite does to the mark, with the call that it makes.
abbrev pub Queued : Stream → Stream → Type 0
Queued s s' =
    (s'.connected ≡ s.connected)
    × (s'.egress_rate ≡ s.egress_rate)
    × (made is_egress s s' ≡ 0)
    × (((made is_trigger s s' ≡ 0) × (s'.write_triggered ≡ s.write_triggered))
        ⊎ ((made is_trigger s s' ≡ 1) × (s.write_triggered ≡ false) × (s'.write_triggered ≡ true)))

queue_write-Queued : (bytes : Bytes) (s : Stream) → Queued s (queue_write bytes s)
unfolding queue_write
queue_write-Queued [] s = (refl, refl, omega arith, inl (omega arith, refl))
queue_write-Queued (b ∷ bs) s =
    let t : Stream = record s {
      write_queue = s.write_queue ++ (b ∷ bs) ∷ [];
      write_triggered = true;
    } in
    elim (Bool-cases (s.connected && not s.blocked && not s.write_triggered)) [
      | inl triggers ↦ rw triggers (
        refl,
        refl,
        made-emit is_egress trigger_writes t,
        inr (made-emit is_trigger trigger_writes t, ground (arith, triggers), refl),
      )
      | inr waits ↦ rw waits (refl, refl, omega arith, inl (omega arith, refl))
    ]

queue_write-Single :
    (bytes : Bytes) (l : Link) → Single l → Single (after (queue_write bytes l.stream) l)
queue_write-Single bytes l s =
    let s' = queue_write bytes l.stream in
    let (open_stream, rate, egress, rest) = queue_write-Queued bytes l.stream in
    elim rest [
      | inl (trigger, mark) ↦
          after-Single s' l (open_stream ∙ s.open_stream) (λ z. s.limited (sym rate ∙ z))
            (omega (arith, egress, trigger, s.once))
            (λ h. mark ∙ s.marked (omega (arith, egress, trigger, h)))
      | inr (trigger, unmarked, mark) ↦
          let idle : on_its_way l ≡ 0 = ground (arith, s.marked, unmarked) in
          after-Single s' l (open_stream ∙ s.open_stream) (λ z. s.limited (sym rate ∙ z))
            (omega (arith, egress, trigger, idle)) (λ h. mark)
    ]

pub async_egress-emit :
    (s s' : Stream)
    → async_egress s ≡ some s'
    → (s' ≡ emit trigger_writes s) × (s.write_triggered ≡ true)
unfolding async_egress
async_egress-emit s s' e = (ground (arith, e), ground (arith, e))

resumes-Single :
    (l : Link) (s' : Stream)
    → 0 < l.fired
    → async_egress l.stream ≡ some s'
    → Single l
    → Single (after s' (record l { fired = l.fired - 1 }))
resumes-Single l s' one e s =
    let (end, mark) = async_egress-emit l.stream s' e in
    let egress = made-emit is_egress trigger_writes l.stream in
    let trigger = made-emit is_trigger trigger_writes l.stream in
    rw end (
      after-Single (emit trigger_writes l.stream) (record l { fired = l.fired - 1 }) s.open_stream
        s.limited (omega (arith, egress, trigger, s.once, one)) (λ h. mark))

runs-Single :
    (l : Link) (s' : Stream) (kernel : ℕ → Bytes → Round)
    → 0 < l.writes
    → Leaves kernel (begin_write l.stream) s'
    → Single l
    → Single (after s' (record l { writes = l.writes - 1 }))
runs-Single l s' kernel one (open_stream, rate, trigger, rest) s =
    let l' : Link = record l { writes = l.writes - 1 } in
    let idle : on_its_way l' ≡ 0 = omega (arith, s.once, one) in
    elim rest [
      | inl (egress, mark, left) ↦
          after-Single s' l' (open_stream ∙ s.open_stream) (λ z. s.limited (sym rate ∙ z))
            (omega (arith, egress, trigger, idle))
            (λ h. absurd (omega (arith, egress, trigger, idle, h)))
      | inr (egress, mark) ↦
          after-Single s' l' (open_stream ∙ s.open_stream) (λ z. s.limited (sym rate ∙ z))
            (omega (arith, egress, trigger, idle)) (λ h. mark)
    ]

disconnect-same :
    (s : Stream)
    → ((disconnect s).connected ≡ s.connected)
      × ((disconnect s).egress_rate ≡ s.egress_rate)
      × ((disconnect s).write_triggered ≡ s.write_triggered)
unfolding disconnect
disconnect-same s = (ground arith, ground arith, ground arith)

disconnects-Single :
    (l : Link)
    → Single l
    → Single (record l { stream = disconnect l.stream; timer = l.timer && l.stream.disconnecting })
disconnects-Single l s =
    let (open_stream, rate, mark) = disconnect-same l.stream in
    record {
      open_stream = open_stream ∙ s.open_stream;
      limited = λ z. s.limited (sym rate ∙ z);
      once = ground (arith, s.once, Bool-cases l.timer, Bool-cases l.stream.disconnecting);
      marked = λ h.
          mark
          ∙ s.marked (ground (arith, h, Bool-cases l.timer, Bool-cases l.stream.disconnecting));
    }

-- A stream with a limit that is connected does not ask for EPOLLOUT.
pub limited_waits_not :
    (s : Stream) → s.connected ≡ true → ¬ (s.egress_rate ≡ 0) → waiting_out_event s ≡ false
unfolding waiting_out_event
limited_waits_not s open_stream limited = ground (arith, open_stream, limited)

Step-Single : {may : Kernels} (l l' : Link) → Step may l l' → Single l → Single l'
Step-Single l _ (queues bytes) s = queue_write-Single bytes l s
Step-Single l _ (adds new) s = record {
  open_stream = s.open_stream;
  limited = s.limited;
  once = s.once;
  marked = s.marked;
}
Step-Single l _ (fires set) s = record {
  open_stream = s.open_stream;
  limited = s.limited;
  once = ground (arith, set, s.once);
  marked = λ h. s.marked (ground (arith, set));
}
Step-Single l _ (resumes {s'} one e) s = resumes-Single l s' one e s
Step-Single l _ (runs {s'} kernel fuel one may e) s =
    runs-Single l s' kernel one (handle_write-Leaves kernel fuel l.stream s' s.open_stream e) s
Step-Single l _ (polls {s'} kernel fuel here waits may e) s =
    absurd (ground (arith, waits, limited_waits_not l.stream s.open_stream s.limited))
Step-Single l _ (drops one gone) s = record {
  open_stream = s.open_stream;
  limited = s.limited;
  once = omega (arith, s.once);
  marked = λ h. s.marked (omega (arith, h));
}
Step-Single l _ (disconnects here) s = disconnects-Single l s

pub Reach-Single :
    {may : Kernels} (now : ℕ) (l : Link) → Reach may (create_accepted now) l → Single l
unfolding create_accepted
Reach-Single now l created = record {
  open_stream = refl;
  limited = λ z. omega (arith, z);
  once = omega arith;
  marked = λ h. absurd (omega (arith, h));
}
Reach-Single now l' (next {l} r step) = Step-Single l l' step (Reach-Single now l r)
