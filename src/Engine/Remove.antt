-- ===== src/Engine/Remove.antt =====
-- src/engine.cpp: doRemove, and the handlers and timers of the socket afterwards.
use epoller.Prelude.{ℕ, ◌≡◌, ◌≢◌, sym, ap, ◌∙◌, false, not, ◌==◌, none, some, arith}
use epoller.Timers.Defs.{start_event, retrigger}
use epoller.Timers.Index.{keep}
use epoller.Timers.Cancel.{cancel_all_timers-Inv}
use epoller.Timers.Trigger.{after_call-retrigger}
use epoller.Engine.Defs.{Engine, Handlers, find, erase, trigger_if, do_remove, run, new_event}
use epoller.Engine.Registry.{Registered, find-erase, find-erase-some, find-erase_other, count-erase}
use epoller.Engine.Expiry.{Timed, trigger_if-armed, trigger_if-Timed}

pub erase-Registered :
    (id : ℕ) (e e' : Engine)
    → Registered e
    → e'.event_hash ≡ erase id e.event_hash
    → e'.ev_id ≡ e.ev_id
    → e'.ev_counter ≡ e.ev_counter
    → Registered e'
erase-Registered id e e' r hash ids counter = record {
  once = λ k. ground (arith, hash, r.once k, count-erase k id e.event_hash);
  ids = λ k sock h.
      let found : find k (erase id e.event_hash) ≡ some sock = ap (find k) (sym hash) ∙ h in
      ap (λ f. f sock) ids
      ∙ r.ids k sock (find-erase-some k id sock e.event_hash (r.once id) found).1;
  given = λ k sock h.
      let found : find k (erase id e.event_hash) ≡ some sock = ap (find k) (sym hash) ∙ h in
      rw counter (r.given k sock (find-erase-some k id sock e.event_hash (r.once id) found).1);
}

-- A socket that is not in the map is not run, nor is an event queued for its id.
run_unregistered :
    (h : Handlers) (sock events : ℕ) (e : Engine)
    → find (e.ev_id sock) e.event_hash ≡ none
    → run h sock events e ≡ e
unfolding run
run_unregistered h sock events e absent = ground (arith, absent)

new_event_unregistered :
    (id events : ℕ) (e : Engine) → find id e.event_hash ≡ none → new_event id events e ≡ e
unfolding new_event
new_event_unregistered id events e absent = ground (arith, absent)

-- Removing a socket that is in the map passes doRemove's assertion and that of the timers, takes out
-- its entry and its timers only, and keeps the map and what is armed in order. From then on an event
-- of the socket that is still queued calls none of its handlers, and none is queued any more.
pub do_remove-Registered :
    (now sock : ℕ) (e : Engine)
    → Registered e
    → Timed e
    → e.stopping ≡ false
    → find (e.ev_id sock) e.event_hash ≡ some sock
    → (e' : Engine) × (do_remove now (some sock) e ≡ some e')
      × Registered e'
      × Timed e'
      × (e'.timers ≡ keep (λ x. not (x.owner == sock)) e.timers)
      × ((id : ℕ) → id ≢ e.ev_id sock → find id e'.event_hash ≡ find id e.event_hash)
      × ((h : Handlers) (events : ℕ) → run h sock events e' ≡ e')
      × ((events : ℕ) → new_event (e.ev_id sock) events e' ≡ e')
unfolding do_remove
do_remove-Registered now sock e r g going found =
    let (eq, v) = cancel_all_timers-Inv e.timers g.inv now sock in
    let t = keep (λ x. not (x.owner == sock)) e.timers in
    let call = retrigger now (start_event e.timers.times_by_date) t.times_by_date in
    let base : Engine = record e { event_hash = erase (e.ev_id sock) e.event_hash } in
    let e' = trigger_if call (record base { timers = t }) in
    let (armed, timers, (hash, ids, counter, queue, stop)) =
      trigger_if-armed call (record base { timers = t }) in
    let gone : find (e.ev_id sock) e'.event_hash ≡ none =
      ap (find (e.ev_id sock)) hash
      ∙ find-erase (e.ev_id sock) e.event_hash (r.once (e.ev_id sock)) in
    let id : e'.ev_id sock ≡ e.ev_id sock = ap (λ f. f sock) ids in
    (
      e',
      ground (arith, found, going, eq),
      erase-Registered (e.ev_id sock) e e' r hash ids counter,
      trigger_if-Timed call t base (record {
        inv = v;
        armed =
            rw g.armed
              (after_call-retrigger now (start_event e.timers.times_by_date) t.times_by_date);
      }),
      timers,
      λ k apart. ap (find k) hash ∙ find-erase_other k (e.ev_id sock) e.event_hash apart,
      λ h events. run_unregistered h sock events e' (rw id gone),
      λ events. new_event_unregistered (e.ev_id sock) events e' gone,
    )
