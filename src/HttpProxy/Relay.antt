-- ===== src/HttpProxy/Relay.antt =====
-- src/main.cpp: what Remote is given, and what it has queued and keeps.
use epoller.Prelude.{
  flat, flat-append, ◌≡◌, refl, sym, ap, ◌∙◌, inl, inr, Bool, List, [], ◌∷◌, ◌++◌, Bytes, Option,
  some, append_assoc, append-nil, arith, Bool-cases, List-cases, ◌>>=◌, >>=-eq-some,
}
use epoller.HttpProxy.{Remote, queue_init, do_write, write_complete, disconnect}

-- All that is on its way: what has been queued on the stream, then what waits for the stream.
abbrev pub given : Remote → Bytes
given r = flat r.queued ++ r.init_write

-- What can happen to a Remote: bytes to write, a write that is complete, the client's disconnect, where
-- the stream's queue is empty or not, and the stream coming to exist or ceasing to.
pub data Happens : Type 0 where
  writes : Bytes → Happens
  completes : Happens
  disconnects : Bool → Happens
  stream_is : Bool → Happens

unfoldable pub happen : Happens → Remote → Option Remote
happen (writes x) r = some (do_write x r)
happen completes r = some (write_complete r)
happen (disconnects empty) r = disconnect empty r
happen (stream_is alive) r = some (record r { stream = alive })

abbrev pub written : List Happens → Bytes
written [] = []
written (writes x ∷ more) = x ++ written more
written (h ∷ more) = written more

unfoldable pub happen_all : List Happens → Remote → Option Remote
happen_all [] r = some r
happen_all (h ∷ more) r = happen h r >>= happen_all more

queue_init-given : (r : Remote) → given (queue_init r) ≡ given r
queue_init-given r =
    append-nil (flat (r.queued ++ r.init_write ∷ [])) ∙ flat-append r.queued r.init_write

pub do_write-given : (x : Bytes) (r : Remote) → given (do_write x r) ≡ given r ++ x
unfolding do_write
do_write-given x r = elim (Bool-cases r.stream) [
  | inr away ↦ rw away (sym (append_assoc (flat r.queued) r.init_write x))
  | inl here ↦ elim (List-cases r.init_write) [
    | inl empty ↦ ground (
      arith,
      here,
      flat-append r.queued x,
      append-nil (flat r.queued),
      append-nil (flat (r.queued ++ x ∷ [])),
    )
    | inr (b, bs, full) ↦
        let queued = r.queued ++ r.init_write ∷ [] in
        ground (
          arith,
          here,
          flat-append queued x,
          flat-append r.queued r.init_write,
          append-nil (flat (queued ++ x ∷ [])),
        )
  ]
]

pub write_complete-given : (r : Remote) → given (write_complete r) ≡ given r
unfolding write_complete
write_complete-given r = elim (Bool-cases r.stream) [
  | inr away ↦ rw away
  | inl here ↦ elim (List-cases r.init_write) [
    | inl empty ↦ ground (arith, here, empty)
    | inr (b, bs, full) ↦ ground (arith, here, full, queue_init-given r)
  ]
]

pub disconnect-given :
    (empty : Bool) (r r' : Remote) → disconnect empty r ≡ some r' → given r' ≡ given r
unfolding disconnect
disconnect-given empty r r' e = ground (arith, e)

happen-given :
    (h : Happens) (r r' : Remote) → happen h r ≡ some r' → given r' ≡ given r ++ written (h ∷ [])
unfolding happen
happen-given (writes x) r r' e =
    let e' : do_write x r ≡ r' = ground (arith, e) in
    ap given (sym e') ∙ do_write-given x r ∙ ap (λ y. given r ++ y) (sym (append-nil x))
happen-given completes r r' e =
    let e' : write_complete r ≡ r' = ground (arith, e) in
    ap given (sym e') ∙ write_complete-given r ∙ sym (append-nil (given r))
happen-given (disconnects empty) r r' e = disconnect-given empty r r' e ∙ sym (append-nil (given r))
happen-given (stream_is alive) r r' e =
    let e' : record r { stream = alive } ≡ r' = ground (arith, e) in
    ap given (sym e') ∙ sym (append-nil (given r))

written-cons :
    (h : Happens) (more : List Happens) → written (h ∷ []) ++ written more ≡ written (h ∷ more)
written-cons (writes x) more = ap (λ y. y ++ written more) (append-nil x)
written-cons completes more = refl
written-cons (disconnects empty) more = refl
written-cons (stream_is alive) more = refl

-- Whatever happens to a Remote, and whenever its stream exists, what it has queued on the stream and what
-- it keeps for the stream are together what it kept at first and then all that it was given to write,
-- in that order, as long as its assertion does not trap.
happen_all_in_order :
    (events : List Happens) (r r' : Remote)
    → happen_all events r ≡ some r'
    → flat r'.queued ++ r'.init_write ≡ (flat r.queued ++ r.init_write) ++ written events
unfolding happen_all
happen_all_in_order [] r r' e =
    let e' : r ≡ r' = ground (arith, e) in ap given (sym e') ∙ sym (append-nil (given r))
happen_all_in_order (h ∷ more) r r' e =
    let (q, first, later) = >>=-eq-some (happen h r) (happen_all more) e in
    happen_all_in_order more q r' later
    ∙ ap (λ y. y ++ written more) (happen-given h r q first)
    ∙ append_assoc (given r) (written (h ∷ [])) (written more)
    ∙ ap (λ y. given r ++ y) (written-cons h more)
