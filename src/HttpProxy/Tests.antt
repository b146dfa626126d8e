-- ===== src/HttpProxy/Tests.antt =====
-- Runs of src/main.cpp, and the theorems at them.
use epoller.Prelude.{arith, ◌≡◌, refl, true, false, List, [], ◌∷◌, ◌++◌, Bytes, none, some}
use epoller.HttpProxy.{
  tolower, same_char, find_from, find_first_pattern, Remote, do_write, write_complete, disconnect,
}
use epoller.HttpProxy.Header.{newline, skip_newlines, find_cr, before_colon, host_of, scan_host}
use epoller.HttpProxy.Lines.{AreLines, header_of, host_of_lines, scan_host-lines}
use epoller.HttpProxy.Beyond.{crlf, scan_host_reads_beyond}
use epoller.HttpProxy.Client.{Client, received, handle_header, connect_remote, queue_write, reply}
use epoller.HttpProxy.Relay.{Happens, writes, completes, disconnects, stream_is, happen, happen_all}

-- "GET Host: a" and "HOST:?".
abbrev request : Bytes
request = b'G' ∷ b'E' ∷ b'T' ∷ b' ' ∷ b'H' ∷ b'o' ∷ b's' ∷ b't' ∷ b':' ∷ b' ' ∷ b'a' ∷ []

abbrev host_pattern : Bytes
host_pattern = b'H' ∷ b'O' ∷ b'S' ∷ b'T' ∷ b':' ∷ b'?' ∷ []

request_run : find_first_pattern request host_pattern ≡ some (3, 9)
unfolding find_first_pattern find_from same_char tolower
request_run = refl

-- The byte at which a match breaks off is not tried as the first one of the pattern: in "hhost: a" the
-- header field is not found.
missed_run :
    find_first_pattern (b'h' ∷ b'h' ∷ b'o' ∷ b's' ∷ b't' ∷ b':' ∷ b' ' ∷ []) host_pattern ≡ none
unfolding find_first_pattern find_from same_char tolower
missed_run = refl

-- Bytes are given before the stream exists, the stream comes, its write is complete, and more is given.
abbrev events : List Happens
events =
    writes (3 ∷ [])
    ∷ stream_is true
    ∷ completes
    ∷ writes (4 ∷ 5 ∷ [])
    ∷ disconnects false
    ∷ stream_is false
    ∷ writes (6 ∷ [])
    ∷ []

abbrev pub new_remote : Remote
new_remote = record {
  stream = false;
  init_write = 1 ∷ 2 ∷ [];
  ep_disconnected = false;
  queued = [];
  disconnects = 0;
}

abbrev after_events : Remote
after_events = record {
  stream = false;
  init_write = 6 ∷ [];
  ep_disconnected = true;
  queued = (1 ∷ 2 ∷ 3 ∷ []) ∷ (4 ∷ 5 ∷ []) ∷ [];
  disconnects = 0;
}

happen_all_run : happen_all events new_remote ≡ some after_events
unfolding happen_all happen do_write write_complete disconnect
happen_all_run = refl

-- "GET /", "Host: a:80" and an empty line.
abbrev pub two_lines : List Bytes
two_lines =
    (b'G' ∷ b'E' ∷ b'T' ∷ b' ' ∷ b'/' ∷ [])
    ∷ (b'H' ∷ b'o' ∷ b's' ∷ b't' ∷ b':' ∷ b' ' ∷ b'a' ∷ b':' ∷ b'8' ∷ b'0' ∷ [])
    ∷ []
    ∷ []

host_run : host_of_lines two_lines [] ≡ b'a' ∷ []
unfolding host_of find_first_pattern find_from same_char tolower before_colon
host_run = refl

two_lines-AreLines : AreLines two_lines
unfolding find_cr
two_lines-AreLines = (refl, refl, (refl, refl, (refl, refl, tt)))

scan_host-lines_example :
    scan_host 0 30 (header_of two_lines) [] ≡ some (host_of_lines two_lines [])
scan_host-lines_example =
    scan_host-lines 0 30 two_lines [] (omega arith) two_lines-AreLines (omega arith)

scan_host_reads_beyond_example :
    (scan_host newline 20 (request ++ crlf) [] ≡ none)
    × ((host' : Bytes) × (scan_host 0 20 (request ++ crlf) [] ≡ some host'))
scan_host_reads_beyond_example = scan_host_reads_beyond 0 20 request [] (omega arith) (omega arith)

-- A client of which nothing has been received.
abbrev pub new_client : Client
new_client = record {
  stream = true;
  header = [];
  remote = none;
  remote_dest = record {
    addr = record { d = 0 ∷ 0 ∷ 0 ∷ 0 ∷ 0 ∷ 0 ∷ 0 ∷ 0 ∷ [] };
    valid = false;
    port = 0;
    if_index = 0;
  };
  disconnect_when_completed = false;
  queued = [];
  disconnects = 0;
  created = [];
}

received_run :
    received 0 (header_of two_lines) new_client
    ≡ some (record new_client {
      header = header_of two_lines;
      remote = some (record new_remote { init_write = header_of two_lines });
      created = (b'a' ∷ [], 80) ∷ [];
    })
unfolding received handle_header connect_remote scan_host skip_newlines find_cr host_of
    find_first_pattern find_from same_char tolower before_colon
received_run = refl

-- "CONNECT a", "Host: a" and an empty line, with a byte behind them.
abbrev pub connect_lines : Bytes
connect_lines =
    header_of (
      (b'C' ∷ b'O' ∷ b'N' ∷ b'N' ∷ b'E' ∷ b'C' ∷ b'T' ∷ b' ' ∷ b'a' ∷ [])
      ∷ (b'H' ∷ b'o' ∷ b's' ∷ b't' ∷ b':' ∷ b' ' ∷ b'a' ∷ [])
      ∷ []
      ∷ [])
    ++ 7 ∷ []

pub connect_run :
    received 0 connect_lines new_client
    ≡ some (record new_client {
      header = 7 ∷ [];
      remote = some (record new_remote { init_write = 7 ∷ [] });
      queued = reply ∷ [];
      created = (b'a' ∷ [], 443) ∷ [];
    })
unfolding received handle_header connect_remote queue_write scan_host skip_newlines find_cr host_of
    find_first_pattern find_from same_char tolower before_colon
connect_run = refl
