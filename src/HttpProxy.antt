-- ===== src/HttpProxy.antt =====
-- src/main.cpp: the example program, a proxy for HTTP: its search in what it has received, its
-- streams to the client and to the remote server.
pub mod Pattern
pub mod Relay
pub mod Header
pub mod Lines
pub mod Beyond
pub mod Client
pub mod Passed
pub mod Resent
pub mod Pair
pub mod Answered
pub mod Sides
pub mod Served
pub mod Flushed
mod Tests
mod PairTests
use epoller.Prelude.{
  ℕ, zero, suc, ◌+◌, Bool, true, false, not, ◌&&◌, ◌||◌, List, [], ◌∷◌, ◌++◌, Bytes, ◌==◌, leb,
  if◌then◌else◌, Option, none, some, length, get_elem?,
}

-- tolower() in the C locale.
unfoldable pub tolower : ℕ → ℕ
tolower c = if leb b'A' c && leb c b'Z' then c + 32 else c

-- Does a byte match one of the pattern?
unfoldable pub same_char : ℕ → ℕ → Bool
unfolding tolower
same_char c p = tolower c == tolower p || p == b'?'

-- The loop of findFirstPattern: the rest of the text, its position, and the two variables. A read of the
-- pattern out of range gives `none`, as no match does.
unfoldable pub find_from : Bytes → Bytes → ℕ → ℕ → ℕ → Option (ℕ × ℕ)
find_from pattern' [] pos match_pos match_begin = none
find_from pattern' (c ∷ rest) pos match_pos match_begin = elim (get_elem? pattern' match_pos) [
  | none ↦ none
  | some p ↦ elim (same_char c p) [
    | true ↦ elim (match_pos + 1 == length pattern') [
      | true ↦ some (match_begin, pos)
      | false ↦ find_from pattern' rest (pos + 1) (match_pos + 1) match_begin
    ]
    | false ↦ find_from pattern' rest (pos + 1) 0 pos
  ]
]

-- findFirstPattern, with `none` for a pair of two ends.
unfoldable pub find_first_pattern : Bytes → Bytes → Option (ℕ × ℕ)
find_first_pattern text pattern' = find_from pattern' text 0 0 0

-- class Remote. `stream` is whether its TcpStream exists; `queued` are the calls of its queueWrite, and
-- `disconnects` those of its disconnect.
pub record Remote : Type 0 where
  pub stream : Bool
  pub init_write : Bytes
  pub ep_disconnected : Bool
  pub queued : List Bytes
  pub disconnects : ℕ

abbrev pub is_nil : Bytes → Bool
is_nil [] = true
is_nil (b ∷ bs) = false

abbrev pub queue_init : Remote → Remote
queue_init r = record r { queued = r.queued ++ r.init_write ∷ []; init_write = [] }

abbrev pub disconnect_stream : Remote → Remote
disconnect_stream r = record r { disconnects = r.disconnects + 1 }

-- doWrite.
unfoldable pub do_write : Bytes → Remote → Remote
do_write x r =
    if r.stream
    then (let r' = if is_nil r.init_write then r else queue_init r in
        record r' { queued = r'.queued ++ x ∷ [] })
    else record r { init_write = r.init_write ++ x }

-- writeComplete.
unfoldable pub write_complete : Remote → Remote
write_complete r =
    if not r.stream
    then r
    else if not (is_nil r.init_write)
    then queue_init r
    else if r.ep_disconnected
    then disconnect_stream r
    else r

-- disconnect, where the stream's queue is empty or not; `none` for its assertion.
unfoldable pub disconnect : Bool → Remote → Option Remote
disconnect write_queue_empty r =
    if r.ep_disconnected
    then none
    else let r' = record r { ep_disconnected = true } in
      some (if r.stream && write_queue_empty then disconnect_stream r' else r')
