-- ===== src/HttpProxy/Lines.antt =====
-- src/main.cpp: the loop of HttpProxy::received on a header of lines.
use epoller.Prelude.{
  ℕ, zero, suc, ◌<◌, ◌≤◌, ◌≡◌, ◌≢◌, refl, ap, inl, inr, Bool, true, not, List, [], ◌∷◌, ◌++◌, Bytes,
  ◌==◌, none, some, length, arith, Option-cases, Bool-cases, List-cases, length-append,
}
use epoller.HttpProxy.Header.{newline, carriage_return, skip_newlines, find_cr, host_of, scan_host}

skip_newlines-some :
    (beyond : ℕ) (xs : Bytes)
    → beyond ≢ newline
    → (start : Bytes) × (skip_newlines beyond xs ≡ some start) × (length start ≤ length xs)
unfolding skip_newlines
skip_newlines-some beyond [] other = ([], ground (arith, other), omega arith)
skip_newlines-some beyond (c ∷ xs) other =
    let (start, eq, short) = skip_newlines-some beyond xs other in
    elim (Bool-cases (c == newline)) [
      | inl skipped ↦ (start, ground (arith, skipped, eq), omega (arith, short))
      | inr kept ↦ (c ∷ xs, ground (arith, kept), omega arith)
    ]

length-find_cr :
    (xs line after : Bytes) → find_cr xs ≡ some (line, after) → length after < length xs
unfolding find_cr
length-find_cr [] line after e = absurd (ground (arith, e))
length-find_cr (c ∷ xs) line after e = elim (Bool-cases (c == carriage_return)) [
  | inl here ↦ let same : xs ≡ after = ground (arith, here, e) in rw (← same) (omega arith)
  | inr other ↦ elim (Option-cases (find_cr xs)) [
    | inl nowhere ↦ absurd (ground (arith, other, nowhere, e))
    | inr ((line', after'), there) ↦
        let same : after' ≡ after = ground (arith, other, there, e) in
        omega (arith, length-find_cr xs line' after (rw (← same) there))
  ]
]

-- The loop ends, in no more rounds than the header has bytes and one.
pub scan_host-some :
    (beyond fuel : ℕ) (start host : Bytes)
    → beyond ≢ newline
    → length start < fuel
    → (host' : Bytes) × (scan_host beyond fuel start host ≡ some host')
unfolding scan_host
scan_host-some beyond zero start host other enough = absurd (omega (arith, enough))
scan_host-some beyond (suc fuel) [] host other enough = (host, refl)
scan_host-some beyond (suc fuel) (c ∷ rest) host other enough =
    let (start, eq, short) = skip_newlines-some beyond (c ∷ rest) other in
    elim (Option-cases (find_cr start)) [
      | inl nowhere ↦ (host, ground (arith, eq, nowhere))
      | inr ((line, after), there) ↦ elim (List-cases after) [
        | inl empty ↦ (host_of line host, ground (arith, eq, there, empty))
        | inr (d, ds, more) ↦
            let shorter = length-find_cr start line after there in
            let fits : length (d ∷ ds) < fuel =
              omega (arith, ap length more, shorter, short, enough) in
            let (host', end) = scan_host-some beyond fuel (d ∷ ds) (host_of line host) other fits in
            (host', ground (arith, eq, there, more, end))
      ]
    ]

abbrev pub starts_line : Bytes → Bool
starts_line [] = true
starts_line (c ∷ cs) = not (c == newline)

-- Lines hold no carriage return, and do not start with a newline.
abbrev pub AreLines : List Bytes → Type 0
AreLines [] = Unit
AreLines (l ∷ ls) = (find_cr l ≡ none) × (starts_line l ≡ true) × AreLines ls

-- A header of lines, each with a carriage return and a newline.
abbrev pub header_of : List Bytes → Bytes
header_of [] = []
header_of (l ∷ ls) = l ++ carriage_return ∷ newline ∷ header_of ls

-- The host after some lines: that of the last line that has one.
abbrev pub host_of_lines : List Bytes → Bytes → Bytes
host_of_lines [] host = host
host_of_lines (l ∷ ls) host = host_of_lines ls (host_of l host)

find_cr-line :
    (l rest : Bytes) → find_cr l ≡ none → find_cr (l ++ carriage_return ∷ rest) ≡ some (l, rest)
unfolding find_cr
find_cr-line [] rest e = refl
find_cr-line (c ∷ l) rest e = elim (Bool-cases (c == carriage_return)) [
  | inl here ↦ absurd (ground (arith, here, e))
  | inr other ↦ elim (Option-cases (find_cr l)) [
    | inl nowhere ↦ ground (arith, other, find_cr-line l rest nowhere)
    | inr ((line, after), there) ↦ absurd (ground (arith, other, there, e))
  ]
]

skip_newlines-header :
    (beyond : ℕ) (ls : List Bytes)
    → beyond ≢ newline
    → AreLines ls
    → skip_newlines beyond (header_of ls) ≡ some (header_of ls)
unfolding skip_newlines
skip_newlines-header beyond [] other lines = ground (arith, other)
skip_newlines-header beyond ([] ∷ ls) other lines = refl
skip_newlines-header beyond ((c ∷ l) ∷ ls) other lines = ground (arith, lines.1)

scan_host-header :
    (beyond fuel : ℕ) (c : ℕ) (rest : Bytes) (ls : List Bytes) (host : Bytes)
    → beyond ≢ newline
    → AreLines ls
    → length (c ∷ rest) < fuel
    → skip_newlines beyond (c ∷ rest) ≡ some (header_of ls)
    → length (header_of ls) ≤ length (c ∷ rest)
    → scan_host beyond fuel (c ∷ rest) host ≡ some (host_of_lines ls host)
unfolding scan_host skip_newlines find_cr
scan_host-header beyond zero c rest ls host other lines enough skipped short =
    absurd (omega (arith, enough))
scan_host-header beyond (suc fuel) c rest [] host other lines enough skipped short =
    ground (arith, skipped)
scan_host-header beyond (suc fuel) c rest (l ∷ ls) host other lines enough skipped short =
    let cr = find_cr-line l (newline ∷ header_of ls) lines.0 in
    let size = length-append l (carriage_return ∷ newline ∷ header_of ls) in
    let rest' : scan_host beyond fuel (newline ∷ header_of ls) (host_of l host)
        ≡ some (host_of_lines ls (host_of l host)) =
      scan_host-header beyond fuel newline (header_of ls) ls (host_of l host) other lines.2
        (omega (arith, size, short, enough)) (skip_newlines-header beyond ls other lines.2)
        (omega arith) in
    ground (arith, skipped, cr, rest')

-- Where the byte behind the header in memory is no newline, the loop finds for every header of lines the
-- host of the last line that has one.
pub scan_host-lines :
    (beyond fuel : ℕ) (ls : List Bytes) (host : Bytes)
    → beyond ≢ newline
    → AreLines ls
    → length (header_of ls) < fuel
    → scan_host beyond fuel (header_of ls) host ≡ some (host_of_lines ls host)
unfolding scan_host
scan_host-lines beyond zero ls host other lines enough = absurd (omega (arith, enough))
scan_host-lines beyond (suc fuel) [] host other lines enough = refl
scan_host-lines beyond (suc fuel) ([] ∷ ls) host other lines enough =
    scan_host-header beyond (suc fuel) carriage_return (newline ∷ header_of ls) ([] ∷ ls) host other
      lines enough (skip_newlines-header beyond ([] ∷ ls) other lines) (omega arith)
scan_host-lines beyond (suc fuel) ((c ∷ l) ∷ ls) host other lines enough =
    scan_host-header beyond (suc fuel) c (l ++ carriage_return ∷ newline ∷ header_of ls)
      ((c ∷ l) ∷ ls) host other lines enough
      (skip_newlines-header beyond ((c ∷ l) ∷ ls) other lines) (omega arith)
