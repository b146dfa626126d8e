-- ===== src/HttpProxy/Passed.antt =====
-- src/main.cpp: what becomes of the bytes that HttpProxy receives.
use epoller.Prelude.{
  flat, ℕ, ◌+◌, ◌<◌, ◌≡◌, ◌≢◌, refl, sym, ap, ◌∙◌, inl, inr, true, [], ◌∷◌, ◌++◌, Bytes, none, some,
  length, drop, arith, Option-cases, Bool-cases, length-append, append_assoc, drop-length-append,
  ltb,
}
use epoller.HttpProxy.{Remote, find_first_pattern, same_char, tolower, do_write}
use epoller.HttpProxy.Pattern.{matches, find_first_pattern-Match}
use epoller.HttpProxy.Relay.{do_write-given}
use epoller.HttpProxy.Header.{newline, found}
use epoller.HttpProxy.Lines.{scan_host-some}
use epoller.HttpProxy.Client.{
  Client, double_cr, connect_method, new_remote, disconnect_stream, queue_write, connect_remote,
  handle_header, received,
}

-- Either no Remote has been made, and all that the client sent is kept as the header; or there is one,
-- for the one connection that was created, and what the client sent is what the Remote has passed on or
-- keeps, behind the header of a CONNECT, which ends with an empty line.
pub data Relays (sent : Bytes) (c : Client) : Type 0 where
  waits : c.remote ≡ none → c.header ≡ sent → c.created ≡ [] → Relays sent c
  passes :
      (r : Remote) (host : Bytes)
      → c.remote ≡ some r
      → c.created ≡ (host, 80) ∷ []
      → sent ≡ flat r.queued ++ r.init_write
      → Relays sent c
  tunnels :
      (r : Remote) (host before : Bytes)
      → c.remote ≡ some r
      → c.created ≡ (host, 443) ∷ []
      → sent ≡ (before ++ double_cr) ++ (flat r.queued ++ r.init_write)
      → Relays sent c

same_char-control : (c p : ℕ) → p < 32 → same_char c p ≡ true → c ≡ p
unfolding same_char tolower
same_char-control c p low e = ground (arith, low, e)

matches-double_cr : (hit : Bytes) → matches hit double_cr ≡ true → hit ≡ double_cr
unfolding matches
matches-double_cr [] e = cc
matches-double_cr (a ∷ []) e = ground (arith, e)
matches-double_cr (a ∷ b ∷ []) e = ground (arith, e)
matches-double_cr (a ∷ b ∷ c ∷ []) e = ground (arith, e)
matches-double_cr (a ∷ b ∷ c ∷ d ∷ []) e = ground (
  arith,
  e,
  same_char-control a 13,
  same_char-control b 10,
  same_char-control c 13,
  same_char-control d 10,
)
matches-double_cr (a ∷ b ∷ c ∷ d ∷ f ∷ more) e = ground (arith, e)

-- What is left behind the empty line.
found-drop :
    (text : Bytes) (second : ℕ)
    → found text double_cr ≡ some second
    → (before : Bytes) × (text ≡ (before ++ double_cr) ++ drop (second + 1) text)
found-drop text second e = elim (Option-cases (find_first_pattern text double_cr)) [
  | inl nowhere ↦ absurd (ground (arith, nowhere, e))
  | inr ((first, last), there) ↦
      let same : last ≡ second = ground (arith, there, e) in
      let m = find_first_pattern-Match text 13 (10 ∷ 13 ∷ 10 ∷ []) first last there in
      let hit : m.hit ≡ double_cr = matches-double_cr m.hit m.fits in
      let split : text ≡ (m.before ++ m.hit) ++ m.after =
        m.split ∙ sym (append_assoc m.before m.hit m.after) in
      let at : second + 1 ≡ length (m.before ++ m.hit) =
        omega (arith, ap (λ n. n + 1) same, m.at_end, length-append m.before m.hit) in
      let left : drop (second + 1) text ≡ m.after =
        ap (λ n. drop n text) at
        ∙ ap (drop (length (m.before ++ m.hit))) split
        ∙ drop-length-append (m.before ++ m.hit) m.after in
      (
        m.before,
        split
            ∙ ap (λ h. (m.before ++ h) ++ m.after) hit
            ∙ ap (λ y. (m.before ++ double_cr) ++ y) (sym left),
      )
]

connect_remote-Relays :
    (second : ℕ) (host : Bytes) (c : Client)
    → found c.header double_cr ≡ some second
    → c.created ≡ []
    → Relays c.header (connect_remote second host c)
unfolding connect_remote queue_write
connect_remote-Relays second host c e start = elim (Option-cases (found c.header connect_method)) [
  | inl plain ↦
      rw (connect_remote, plain)
        (passes (new_remote c.header) host refl (ap (λ y. y ++ (host, 80) ∷ []) start) refl)
  | inr (at, connects) ↦
      let (before, split) = found-drop c.header second e in
      let made = ap (λ y. y ++ (host, 443) ∷ []) start in
      elim (Bool-cases c.stream) [
        | inl here ↦
            rw (connect_remote, connects, queue_write, here)
              (tunnels (new_remote (drop (second + 1) c.header)) host before refl made split)
        | inr away ↦
            rw (connect_remote, connects, queue_write, away)
              (tunnels (new_remote (drop (second + 1) c.header)) host before refl made split)
      ]
]

handle_header-Relays :
    (beyond : ℕ) (c : Client)
    → beyond ≢ newline
    → c.remote ≡ none
    → c.created ≡ []
    → (c' : Client) × (handle_header beyond c ≡ some c') × Relays c.header c'
unfolding handle_header
handle_header-Relays beyond c other alone start = elim (Bool-cases (ltb (length c.header) 4)) [
  | inl short ↦ (c, ground (arith, short), waits alone refl start)
  | inr long ↦ elim (Option-cases (found c.header double_cr)) [
    | inl endless ↦ (
      disconnect_stream c,
      ground (arith, long, endless),
      elim (Bool-cases c.stream) [
        | inl here ↦ rw here (waits alone refl start)
        | inr away ↦ rw away (waits alone refl start)
      ],
    )
    | inr (second, ended) ↦
        let (host, scanned) =
          scan_host-some beyond (length c.header + 1) c.header [] other (omega arith) in
        (
          connect_remote second host c,
          ground (arith, long, ended, scanned),
          connect_remote-Relays second host c ended start,
        )
  ]
]

-- Where the byte behind the header in memory is no newline, received traps nowhere, and it keeps this
-- for all that the client has sent: no Remote has been made, and all of it is kept as the header; or
-- there is a Remote, for the one connection that was created, and all of it is what the Remote has
-- passed on and keeps, in that order, for port 443 behind a header that ends with an empty line.
pub received-Relays :
    (beyond : ℕ) (sent x : Bytes) (c : Client)
    → beyond ≢ newline
    → Relays sent c
    → (c' : Client) × (received beyond x c ≡ some c') × Relays (sent ++ x) c'
unfolding received
received-Relays beyond sent x c other (waits alone kept start) =
    let (c', eq, relays) =
      handle_header-Relays beyond (record c { header = c.header ++ x }) other alone start in
    (c', ground (arith, alone, eq), rw (← kept) relays)
received-Relays beyond sent x c other (passes r host there made split) = (
  record c { remote = some (do_write x r) },
  ground (arith, there),
  passes (do_write x r) host refl made (ap (λ y. y ++ x) split ∙ sym (do_write-given x r)),
)
received-Relays beyond sent x c other (tunnels r host before there made split) = (
  record c { remote = some (do_write x r) },
  ground (arith, there),
  tunnels (do_write x r) host before refl made (
      ap (λ y. y ++ x) split
      ∙ append_assoc (before ++ double_cr) (flat r.queued ++ r.init_write) x
      ∙ ap (λ y. (before ++ double_cr) ++ y) (sym (do_write-given x r))),
)
