-- ===== src/TcpStream/Rounds.antt =====
-- src/tcpstream.cpp: the calls that the loop of handleWrite makes of the engine.
use epoller.Prelude.{
  ℕ, zero, suc, ◌+◌, ◌*◌, ◌/◌, if◌then◌else◌, ◌≡◌, ◌⊎◌, refl, sym, ap, ◌∙◌, inl, inr, Bool, true,
  List, [], ◌∷◌, ◌++◌, Bytes, some, arith, count_if,
}
use epoller.Prelude.Count.{count_if-append}
use epoller.TcpStream.Round.{write_round, blocks, fails, limits, goes_on}
use epoller.TcpStream.Defs.{
  Effect, set_activity_timer, set_egress_timer, max_packet_size, one_sec_in_ns, inactivity_timeout,
  Stream, Round, would_block, failed, after_sent, limit_egress, write_loop,
}
use epoller.TcpStream.Link.{is_trigger, is_egress}

-- The kernel refuses a write.
abbrev pub Refuses : (ℕ → Bytes → Round) → Type 0
Refuses kernel =
    (k : ℕ) × (bytes : Bytes) × (((kernel k bytes).result ≡ would_block)
      ⊎ ((kernel k bytes).result ≡ failed))

-- The stream is not over its limit: it sets no timer, and nothing is left but where the kernel refuses a
-- write.
abbrev pub Finishes : (ℕ → Bytes → Round) → Stream → Stream → Type 0
Finishes kernel s s' =
    (count_if is_egress s'.effects ≡ count_if is_egress s.effects)
    × (s'.write_triggered ≡ s.write_triggered)
    × (((s'.write_queue ≡ []) × (s'.blocked ≡ s.blocked)) ⊎ Refuses kernel)

-- It is, and its egress timer is set.
abbrev pub Limits : Stream → Stream → Type 0
Limits s s' =
    (count_if is_egress s'.effects ≡ count_if is_egress s.effects + 1) × (s'.write_triggered ≡ true)

-- How a loop leaves a stream.
abbrev pub Leaves : (ℕ → Bytes → Round) → Stream → Stream → Type 0
Leaves kernel s s' =
    (s'.connected ≡ s.connected)
    × (s'.egress_rate ≡ s.egress_rate)
    × (count_if is_trigger s'.effects ≡ count_if is_trigger s.effects)
    × (Finishes kernel s s' ⊎ Limits s s')

pub count_emit :
    (p : Effect → Bool) (f : Effect) (effects : List Effect)
    → count_if p (effects ++ f ∷ []) ≡ count_if p effects + (if p f then 1 else 0)
count_emit p f effects = ground (arith, count_if-append p effects (f ∷ []))

module _ (n : ℕ) (bytes : Bytes) (rest : List Bytes) (round : Round) (s : Stream) where
  after_sent-calls :
      let s' = after_sent n bytes rest round s in
      (count_if is_egress s'.effects ≡ count_if is_egress s.effects)
      × (count_if is_trigger s'.effects ≡ count_if is_trigger s.effects)
      × (s'.write_triggered ≡ s.write_triggered)
      × (s'.blocked ≡ s.blocked)
      × (s'.connected ≡ s.connected)
      × (s'.egress_rate ≡ s.egress_rate)
  unfolding after_sent
  after_sent-calls =
      let timer = set_activity_timer inactivity_timeout in
      (
        omega (arith, count_emit is_egress timer s.effects),
        omega (arith, count_emit is_trigger timer s.effects),
        refl,
        refl,
        refl,
        refl,
      )

limit_egress-Limits : (s : Stream) → Limits s (limit_egress s)
unfolding limit_egress
limit_egress-Limits s = (
  omega (
    arith,
    count_emit is_egress (set_egress_timer (max_packet_size * one_sec_in_ns / s.egress_rate))
        s.effects,
  ),
  refl,
)

limit_egress-calls :
    (s : Stream)
    → (count_if is_trigger (limit_egress s).effects ≡ count_if is_trigger s.effects)
      × ((limit_egress s).connected ≡ s.connected)
      × ((limit_egress s).egress_rate ≡ s.egress_rate)
unfolding limit_egress
limit_egress-calls s = (
  omega (
    arith,
    count_emit is_trigger (set_egress_timer (max_packet_size * one_sec_in_ns / s.egress_rate))
        s.effects,
  ),
  refl,
  refl,
)

-- A round, and then the others.
after-Leaves :
    (kernel : ℕ → Bytes → Round) (s s' s'' : Stream)
    → (count_if is_egress s'.effects ≡ count_if is_egress s.effects)
      × (count_if is_trigger s'.effects ≡ count_if is_trigger s.effects)
      × (s'.write_triggered ≡ s.write_triggered)
      × (s'.blocked ≡ s.blocked)
      × (s'.connected ≡ s.connected)
      × (s'.egress_rate ≡ s.egress_rate)
    → Leaves kernel s' s''
    → Leaves kernel s s''
after-Leaves kernel s s' s'' (egress, trigger, mark, block, open_stream, rate)
      (open', rate', trigger', inl (egress', mark', left)) =
    (
      open' ∙ open_stream,
      rate' ∙ rate,
      trigger' ∙ trigger,
      inl (
        egress' ∙ egress,
        mark' ∙ mark,
        elim left [ inl (empty, block') ↦ inl (empty, block' ∙ block) | inr refused ↦ inr refused ],
      ),
    )
after-Leaves kernel s s' s'' (egress, trigger, mark, block, open_stream, rate)
      (open', rate', trigger', inr (egress', mark')) =
    (
      open' ∙ open_stream,
      rate' ∙ rate,
      trigger' ∙ trigger,
      inr (egress' ∙ ap (λ n. n + 1) egress, mark'),
    )

pub write_loop-Leaves :
    (kernel : ℕ → Bytes → Round) (fuel k total : ℕ) (queue : List Bytes) (s s' : Stream)
    → s.write_queue ≡ queue
    → write_loop kernel fuel k total queue s ≡ some s'
    → Leaves kernel s s'
unfolding write_loop
write_loop-Leaves kernel zero k total queue s s' q e = cc
write_loop-Leaves kernel (suc fuel) k total [] s s' q e =
    let same : s ≡ s' = ground (arith, e) in
    rw (← same) (refl, refl, refl, inl (refl, refl, inl (q, refl)))
write_loop-Leaves kernel (suc fuel) k total (bytes ∷ rest) s s' q e =
    elim (write_round kernel fuel k total bytes rest s) [
      | blocks r o ↦
          let same : record s { write_queue = bytes ∷ rest; blocked = true } ≡ s' =
            ground (arith, e, o) in
          rw (← same) (refl, refl, refl, inl (refl, refl, inr (k, bytes, inl r)))
      | fails r o ↦
          let same : record s { write_queue = rest; lost = s.lost ++ bytes } ≡ s' =
            ground (arith, e, o) in
          rw (← same) (refl, refl, refl, inl (refl, refl, inr (k, bytes, inr r)))
      | limits n r over o ↦
          let t = after_sent n bytes rest (kernel k bytes) s in
          let same : limit_egress t ≡ s' = ground (arith, e, o) in
          let (trigger, open_stream, rate) = limit_egress-calls t in
          rw (← same) (
            after-Leaves kernel s t (limit_egress t)
              (after_sent-calls n bytes rest (kernel k bytes) s)
              (open_stream, rate, trigger, inr (limit_egress-Limits t)))
      | goes_on n r under o ↦
          let t = after_sent n bytes rest (kernel k bytes) s in
          after-Leaves kernel s t s' (after_sent-calls n bytes rest (kernel k bytes) s)
            (write_loop-Leaves kernel fuel (k + 1) (total + n) t.write_queue t s' refl (sym o ∙ e))
    ]
