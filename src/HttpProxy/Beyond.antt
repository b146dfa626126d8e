-- ===== src/HttpProxy/Beyond.antt =====
-- src/main.cpp: what the loop of HttpProxy::received reads behind the header.
use epoller.Prelude.{
  ℕ, zero, suc, ◌<◌, ◌≡◌, ◌≢◌, ◌⊎◌, refl, sym, ap, ◌∙◌, inl, inr, [], ◌∷◌, ◌++◌, Bytes, ◌==◌, none,
  some, length, arith, Bool-cases, List-cases, length-append,
}
use epoller.HttpProxy.Header.{newline, carriage_return, skip_newlines, find_cr, host_of, scan_host}
use epoller.HttpProxy.Lines.{scan_host-some}

abbrev pub crlf : Bytes
crlf = 13 ∷ 10 ∷ []

skip_newlines-crlf :
    (beyond : ℕ) (pre : Bytes)
    → (pre' : Bytes) × (skip_newlines beyond (pre ++ crlf) ≡ some (pre' ++ crlf))
unfolding skip_newlines
skip_newlines-crlf beyond [] = ([], refl)
skip_newlines-crlf beyond (c ∷ pre) =
    let (pre', eq) = skip_newlines-crlf beyond pre in
    elim (Bool-cases (c == newline)) [
      | inl skipped ↦ (pre', ground (arith, skipped, eq))
      | inr kept ↦ (c ∷ pre, ground (arith, kept))
    ]

find_cr-crlf :
    (pre : Bytes)
    → (line : Bytes) × (after : Bytes) × (find_cr (pre ++ crlf) ≡ some (line, after))
      × ((after ≡ newline ∷ []) ⊎ ((pre' : Bytes) × (after ≡ pre' ++ crlf)))
unfolding find_cr
find_cr-crlf [] = ([], newline ∷ [], refl, inl refl)
find_cr-crlf (c ∷ pre) = elim (Bool-cases (c == carriage_return)) [
  | inl here ↦ ([], pre ++ crlf, ground (arith, here), inr (pre, refl))
  | inr other ↦
      let (line, after, eq, last) = find_cr-crlf pre in
      (c ∷ line, after, ground (arith, other, eq), last)
]

newline-alone : (fuel : ℕ) (host : Bytes) → scan_host newline fuel (newline ∷ []) host ≡ none
unfolding scan_host skip_newlines
newline-alone zero host = refl
newline-alone (suc fuel) host = refl

crlf-Round :
    (fuel c : ℕ) (rest pre host : Bytes)
    → ((pre host : Bytes) → scan_host newline fuel (pre ++ crlf) host ≡ none)
    → c ∷ rest ≡ pre ++ crlf
    → scan_host newline (suc fuel) (c ∷ rest) host ≡ none
unfolding scan_host
crlf-Round fuel c rest pre host later e =
    let (pre', eq) = skip_newlines-crlf newline pre in
    let skipped : skip_newlines newline (c ∷ rest) ≡ some (pre' ++ crlf) =
      ap (skip_newlines newline) e ∙ eq in
    let (line, after, cr, last) = find_cr-crlf pre' in
    elim last [
      | inl alone ↦ ground (arith, skipped, cr, alone, newline-alone fuel (host_of line host))
      | inr (pre'', more) ↦ elim (List-cases after) [
        | inl empty ↦
            absurd (omega (arith, length-append pre'' crlf, ap length more, ap length empty))
        | inr (d, ds, split) ↦
            let again : d ∷ ds ≡ pre'' ++ crlf = sym split ∙ more in
            let rest' : scan_host newline fuel (d ∷ ds) (host_of line host) ≡ none =
              rw again (later pre'' (host_of line host)) in
            ground (arith, skipped, cr, split, rest')
      ]
    ]

crlf-none : (fuel : ℕ) (pre host : Bytes) → scan_host newline fuel (pre ++ crlf) host ≡ none
unfolding scan_host
crlf-none zero pre host = refl
crlf-none (suc fuel) [] host =
    crlf-Round fuel carriage_return (newline ∷ []) [] host (crlf-none fuel) refl
crlf-none (suc fuel) (c ∷ pre) host =
    crlf-Round fuel c (pre ++ crlf) (c ∷ pre) host (crlf-none fuel) refl

-- For a header that ends in a carriage return and a newline the loop reads the byte behind it: where a
-- newline stands there, it reads on behind that one, and where another byte does, it ends with a host, in
-- no more rounds than the header has bytes and one.
pub scan_host_reads_beyond :
    (beyond fuel : ℕ) (pre host : Bytes)
    → beyond ≢ newline
    → length (pre ++ crlf) < fuel
    → (scan_host newline fuel (pre ++ crlf) host ≡ none)
      × ((host' : Bytes) × (scan_host beyond fuel (pre ++ crlf) host ≡ some host'))
scan_host_reads_beyond beyond fuel pre host other enough =
    (crlf-none fuel pre host, scan_host-some beyond fuel (pre ++ crlf) host other enough)
