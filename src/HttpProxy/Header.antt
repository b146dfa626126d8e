-- ===== src/HttpProxy/Header.antt =====
-- src/main.cpp: the loop of HttpProxy::received over the lines of a header, which finds the host.
use epoller.Prelude.{
  ℕ, zero, suc, ◌+◌, [], ◌∷◌, Bytes, ◌==◌, if◌then◌else◌, Option, none, some, drop,
}
use epoller.HttpProxy.{find_first_pattern}

abbrev pub newline : ℕ
newline = 10

abbrev pub carriage_return : ℕ
carriage_return = 13

-- Where a pattern is found: its second position, if that is not the first one.
abbrev pub found : Bytes → Bytes → Option ℕ
found text pattern' = elim (find_first_pattern text pattern') [
  | none ↦ none
  | some (first, second) ↦ if first == second then none else some second
]

-- The bytes from `start` on after the newlines. `beyond` is the byte that stands behind the header in
-- memory, which the loop reads where the header ends in newlines; `none` where it reads on behind it.
unfoldable pub skip_newlines : ℕ → Bytes → Option Bytes
skip_newlines beyond [] = if beyond == newline then none else some []
skip_newlines beyond (c ∷ rest) =
    let skipped = skip_newlines beyond rest in if c == newline then skipped else some (c ∷ rest)

-- The line up to the first carriage return, and what stands behind it.
unfoldable pub find_cr : Bytes → Option (Bytes × Bytes)
find_cr [] = none
find_cr (c ∷ rest) =
    let found' = find_cr rest in
    if c == carriage_return
    then some ([], rest)
    else elim found' [ none ↦ none | some (line, after) ↦ some (c ∷ line, after) ]

unfoldable pub before_colon : Bytes → Bytes
before_colon [] = []
before_colon (c ∷ rest) = let before = before_colon rest in if c == b':' then [] else c ∷ before

abbrev pub host_field : Bytes
host_field = b'H' ∷ b'O' ∷ b'S' ∷ b'T' ∷ b':' ∷ b'?' ∷ []

-- The host after a line.
unfoldable pub host_of : Bytes → Bytes → Bytes
unfolding before_colon
host_of line host = elim (found line host_field) [
  | none ↦ host
  | some second ↦ before_colon (drop (second + 1) line)
]

-- The loop, on fuel: the bytes from `start` on, and the host so far.
unfoldable pub scan_host : ℕ → ℕ → Bytes → Bytes → Option Bytes
unfolding skip_newlines find_cr host_of
scan_host beyond zero start host = none
scan_host beyond (suc fuel) [] host = some host
scan_host beyond (suc fuel) (c ∷ rest) host = elim (skip_newlines beyond (c ∷ rest)) [
  | none ↦ none
  | some start ↦ elim (find_cr start) [
    | none ↦ some host
    | some (line, []) ↦ some (host_of line host)
    | some (line, d ∷ after) ↦ scan_host beyond fuel (d ∷ after) (host_of line host)
  ]
]
