-- ===== src/TcpStream/Link.antt =====
-- src/tcpstream.cpp and src/engine.cpp: a stream from its creation on, with what is on its way to it.
use epoller.Prelude.{
  ℕ, ◌+◌, ◌-◌, ◌≡◌, ◌<◌, Bool, true, false, not, ◌&&◌, ◌||◌, Bytes, ltb, some, if◌then◌else◌,
  count_if,
}
use epoller.TcpStream.Defs.{
  Effect, trigger_writes, set_egress_timer, Stream, Round, handle_write, queue_write, async_egress,
  waiting_out_event, disconnect,
}

abbrev pub is_trigger : Effect → Bool
is_trigger trigger_writes = true
is_trigger _ = false

abbrev pub is_egress : Effect → Bool
is_egress (set_egress_timer t) = true
is_egress _ = false

-- How often an operation has made a call.
abbrev pub made : (Effect → Bool) → Stream → Stream → ℕ
made p s s' = count_if p s'.effects - count_if p s.effects

-- A stream: whether create has added it to the engine, whether its egress timer is set, how many of its
-- events that run asyncEgress are queued, and how many that run handleWrite. `early` is whether it has
-- called triggerWrites before it was added; the code does not keep that.
pub record Link : Type 0 where
  pub stream : Stream
  pub added : Bool
  pub timer : Bool
  pub fired : ℕ
  pub writes : ℕ
  pub early : Bool

abbrev pub new_link : Stream → Link
new_link s = record {
  stream = s;
  added = false;
  timer = false;
  fired = 0;
  writes = 0;
  early = false;
}

-- Is the stream in the engine's map? It has been added, and disconnect has not removed it.
abbrev pub in_map : Link → Bool
in_map l = l.added && not l.stream.disconnecting

-- The engine has done what an operation has asked for: triggerWrites queues an event where the stream is in
-- the map.
abbrev pub after : Stream → Link → Link
after s' l = record l {
  stream = s';
  timer = l.timer || ltb 0 (made is_egress l.stream s');
  writes = l.writes + (if in_map l then made is_trigger l.stream s' else 0);
  early = l.early || (not l.added && ltb 0 (made is_trigger l.stream s'));
}

-- What the kernel may answer.
abbrev pub Kernels : Type 1
Kernels = (ℕ → Bytes → Round) → Type 0

-- A write is queued, also before create adds the stream; the timer runs out; a worker runs asyncEgress;
-- handleWrite runs, for an event that is queued or for the EPOLLOUT that the stream asks for; an event of
-- a stream that has been removed does nothing; disconnect removes the stream, with its timer. A
-- disconnect before create adds the stream, at which the engine's assertion traps, is no step.
pub data Step (may : Kernels) : Link → Link → Type 0 where
  queues : {l : Link} (bytes : Bytes) → Step may l (after (queue_write bytes l.stream) l)
  adds : {l : Link} → l.added ≡ false → Step may l (record l { added = true })
  fires : {l : Link} → l.timer ≡ true → Step may l (record l { timer = false; fired = l.fired + 1 })
  resumes :
      {l : Link} {s' : Stream}
      → 0 < l.fired
      → async_egress l.stream ≡ some s'
      → Step may l (after s' (record l { fired = l.fired - 1 }))
  runs :
      {l : Link} {s' : Stream} (kernel : ℕ → Bytes → Round) (fuel : ℕ)
      → 0 < l.writes
      → may kernel
      → handle_write kernel fuel l.stream ≡ some s'
      → Step may l (after s' (record l { writes = l.writes - 1 }))
  polls :
      {l : Link} {s' : Stream} (kernel : ℕ → Bytes → Round) (fuel : ℕ)
      → l.added ≡ true
      → waiting_out_event l.stream ≡ true
      → may kernel
      → handle_write kernel fuel l.stream ≡ some s'
      → Step may l (after s' l)
  drops :
      {l : Link}
      → 0 < l.writes
      → l.stream.disconnecting ≡ true
      → Step may l (record l { writes = l.writes - 1 })
  disconnects :
      {l : Link}
      → l.added ≡ true
      → Step may l
          (record l { stream = disconnect l.stream; timer = l.timer && l.stream.disconnecting })

-- Everything that is on its way.
abbrev pub on_its_way : Link → ℕ
on_its_way l = (if l.timer then 1 else 0) + l.fired + l.writes

-- What may become of a stream that create has made.
pub data Reach (may : Kernels) (made : Stream) : Link → Type 0 where
  created : Reach may made (new_link made)
  next : {l l' : Link} → Reach may made l → Step may l l' → Reach may made l'
