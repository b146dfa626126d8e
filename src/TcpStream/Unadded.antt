-- ===== src/TcpStream/Unadded.antt =====
-- src/tcpstream.cpp and src/engine.cpp: a write that is queued on an accepted stream before create has added it to
-- the engine.
use epoller.Prelude.{ℕ, ◌≡◌, refl, false, [], ◌∷◌, ◌++◌, Bytes, none, arith}
use epoller.Engine.Defs.{Engine, find, new_event, do_trigger_writes}
use epoller.TcpStream.Defs.{Stream, trigger_writes, queue_write, waiting_out_event}
use epoller.TcpStream.Life.{create_accepted}

-- The first bytes that are queued.
abbrev pub first_write : ℕ → Bytes → Stream
first_write now bytes = queue_write bytes (create_accepted now)

-- create has the client told that the write is complete before it adds the stream to the engine. Where
-- the client queues a write before that, the call of triggerWrites that it leads to queues no event, and
-- the stream stays marked as triggered: no later write makes that call again, and the stream does not
-- ask for EPOLLOUT.
pub early_write_stalls :
    (now sock b c : ℕ) (bs cs : Bytes) (e : Engine)
    → find (e.ev_id sock) e.event_hash ≡ none
    → let s = first_write now (b ∷ bs) in
      let s' = queue_write (c ∷ cs) s in
      (s.effects ≡ (create_accepted now).effects ++ trigger_writes ∷ [])
      × (do_trigger_writes sock e ≡ e)
      × (s'.effects ≡ s.effects)
      × (s'.write_queue ≡ (b ∷ bs) ∷ (c ∷ cs) ∷ [])
      × (waiting_out_event s' ≡ false)
unfolding queue_write create_accepted waiting_out_event do_trigger_writes new_event
early_write_stalls now sock b c bs cs e unknown = (refl, ground (arith, unknown), refl, refl, refl)
