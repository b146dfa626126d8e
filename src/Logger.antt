-- ===== src/Logger.antt =====
-- src/logger.cpp and src/logger.hpp: the lines that are logged.
pub mod Stamp
pub mod Threads
mod Tests
use epoller.Prelude.{
  ℕ, zero, suc, ◌+◌, ◌*◌, ◌-◌, ◌/◌, ◌%◌, Bool, true, false, not, List, [], ◌∷◌, ◌++◌, Bytes, ◌==◌,
  ltb, if◌then◌else◌, Option, none, some, length, replicate,
}

-- enum LogType, in the order of its numbers.
pub data LogType : Type 0 where
  nothing critical error warning debug everything : LogType

abbrev number_of : LogType → ℕ
number_of nothing = 0
number_of critical = 1
number_of error = 2
number_of warning = 3
number_of debug = 4
number_of everything = 5

-- class Logger, with the lines that it has written.
pub record Logger : Type 0 where
  pub thread_ids : List ℕ
  pub level : LogType
  pub lines : List Bytes

-- `os << n` for a number of `n` digits at most.
unfoldable pub decimal_digits : ℕ → ℕ → Bytes
decimal_digits zero d = []
decimal_digits (suc n) d =
    let front = decimal_digits n (d / 10) in
    (if d / 10 == 0 then [] else front) ++ (d % 10 + b'0') ∷ []

abbrev pub decimal : ℕ → Bytes
decimal d = decimal_digits 20 d

-- The loop that writes zeros, on fuel.
unfoldable pub zeros : ℕ → ℕ → Bytes
zeros zero div = []
zeros (suc fuel) div =
    let more = zeros fuel (div * 10) in if ltb div 100_000_000 then b'0' ∷ more else []

-- The nanoseconds of a line. Nine rounds of the loop are enough.
unfoldable pub nanoseconds : ℕ → Bytes
unfolding zeros decimal_digits
nanoseconds nsecs = zeros 9 (if nsecs == 0 then 1 else nsecs) ++ decimal nsecs

-- The loop over threadIds: the position so far, and tid, `none` for the greatest number.
unfoldable pub find_tid : ℕ → List ℕ → ℕ → Option ℕ → Option ℕ
find_tid id [] i tid = tid
find_tid id (x ∷ ids) i tid = find_tid id ids (i + 1) (if x == id then some i else tid)

-- The number of a thread, and threadIds afterwards.
unfoldable pub number_thread : ℕ → List ℕ → ℕ × List ℕ
unfolding find_tid
number_thread id ids = elim (find_tid id ids 0 none) [
  | some i ↦ (i, ids)
  | none ↦ (length ids, ids ++ id ∷ [])
]

-- std::setw(2), with blanks.
abbrev pad2 : Bytes → Bytes
pad2 text = replicate (2 - length text) b' ' ++ text

-- doLog, at a time and on a thread. `local_time` is the text that the library makes of the seconds.
unfoldable pub do_log : (ℕ → Bytes) → ℕ → ℕ → LogType → Bytes → Logger → Logger
unfolding nanoseconds number_thread
do_log local_time now_ns id type what l =
    if ltb (number_of l.level) (number_of type)
    then l
    else let (tid, ids) = number_thread id l.thread_ids in
      record l {
        thread_ids = ids;
        lines =
            l.lines
            ++ (local_time (now_ns / 1_000_000_000)
                ++ (nanoseconds (now_ns % 1_000_000_000)
                    ++ b' ' ∷ (pad2 (decimal tid) ++ b' ' ∷ (what ++ 10 ∷ []))))
              ∷ [];
      }

-- start, of the one logger: `none` for its exception.
unfoldable pub start : Option Logger → Option Logger
start none = some (record { thread_ids = []; level = everything; lines = [] })
start (some l) = none

-- setMask.
unfoldable pub set_mask : LogType → Logger → Logger
set_mask mask l = record l { level = mask }

-- stop: whether there was one, which is gone.
unfoldable pub stop : Option Logger → Option (Option Logger)
stop none = none
stop (some l) = some none

-- log: `none` for its exception.
unfoldable pub log : (ℕ → Bytes) → ℕ → ℕ → LogType → Bytes → Option Logger → Option Logger
unfolding do_log
log local_time now_ns id type what none = none
log local_time now_ns id type what (some l) = some (do_log local_time now_ns id type what l)
