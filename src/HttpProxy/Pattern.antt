-- ===== src/HttpProxy/Pattern.antt =====
-- src/main.cpp: what findFirstPattern finds.
use epoller.Prelude.{
  ℕ, suc, ◌+◌, ◌-◌, ◌≡◌, refl, sym, ap, ◌∙◌, inl, inr, Bool, true, false, ◌&&◌, [], ◌∷◌, ◌++◌,
  Bytes, ◌==◌, Option, some, append_assoc, length, length-append, get_elem?, get_elem?-append,
  arith, Bool-cases, List-cases,
}
use epoller.HttpProxy.{same_char, find_from, find_first_pattern}

-- As many bytes as the pattern has, each of which matches its own.
unfoldable pub matches : Bytes → Bytes → Bool
matches [] [] = true
matches (c ∷ cs) (p ∷ ps) = same_char c p && matches cs ps
matches _ _ = false

matches-append :
    (hit got : Bytes) (c p : ℕ)
    → matches hit got ≡ true
    → same_char c p ≡ true
    → matches (hit ++ c ∷ []) (got ++ p ∷ []) ≡ true
unfolding matches
matches-append [] [] c p h e = ground (arith, e)
matches-append [] (q ∷ got) c p h e = cc
matches-append (d ∷ hit) [] c p h e = cc
matches-append (d ∷ hit) (q ∷ got) c p h e = ground (arith, matches-append hit got c p, e)

matches-length : (hit got : Bytes) → matches hit got ≡ true → length hit ≡ length got
unfolding matches
matches-length [] [] h = refl
matches-length [] (q ∷ got) h = cc
matches-length (d ∷ hit) [] h = cc
matches-length (d ∷ hit) (q ∷ got) h = ground (arith, matches-length hit got)

-- A match in a text: what stands before it, the bytes of it, and the two positions that are returned.
pub record Match (text pattern' : Bytes) (first last : ℕ) : Type 0 where
  pub before : Bytes
  pub hit : Bytes
  pub after : Bytes
  pub split : text ≡ before ++ (hit ++ after)
  pub fits : matches hit pattern' ≡ true
  pub at_end : last + 1 ≡ length before + length hit
  pub at_begin : first ≡ length before - 1

Match-move :
    {text text' pattern' : Bytes} {first last : ℕ}
    → text ≡ text'
    → Match text pattern' first last
    → Match text' pattern' first last
Match-move e m = record {
  before = m.before;
  hit = m.hit;
  after = m.after;
  split = sym e ∙ m.split;
  fits = m.fits;
  at_end = m.at_end;
  at_begin = m.at_begin;
}

-- The ways a round of the loop can go at the byte `p` of the pattern.
module _ (pattern' rest : Bytes) (c p pos match_pos match_begin : ℕ) where
  abbrev searched : Option (ℕ × ℕ)
  searched = find_from pattern' (c ∷ rest) pos match_pos match_begin

  module _ (here : get_elem? pattern' match_pos ≡ some p) where
    find_from-miss : same_char c p ≡ false → searched ≡ find_from pattern' rest (pos + 1) 0 pos
    unfolding find_from
    find_from-miss miss = rw (find_from, here, miss)

    find_from-hit :
        same_char c p ≡ true
        → (match_pos + 1 == length pattern') ≡ false
        → searched ≡ find_from pattern' rest (pos + 1) (match_pos + 1) match_begin
    unfolding find_from
    find_from-hit hit more = rw (find_from, here, hit, more)

    find_from-end :
        same_char c p ≡ true
        → (match_pos + 1 == length pattern') ≡ true
        → searched ≡ some (match_begin, pos)
    unfolding find_from
    find_from-end hit done = rw (find_from, here, hit, done)

module _ (pattern' : Bytes) (first last : ℕ) where
  -- The loop, where `hit` matches the part `got` of the pattern and the byte `p` is next.
  find_from-Match :
      (before hit rest got todo : Bytes) (p pos match_pos match_begin : ℕ)
      → pattern' ≡ got ++ p ∷ todo
      → matches hit got ≡ true
      → pos ≡ length before + length hit
      → match_pos ≡ length got
      → match_begin ≡ length before - 1
      → find_from pattern' rest pos match_pos match_begin ≡ some (first, last)
      → Match (before ++ (hit ++ rest)) pattern' first last
  unfolding find_from matches
  find_from-Match before hit [] got todo p pos match_pos match_begin q m a b d e = cc
  find_from-Match before hit (c ∷ rest) got todo p pos match_pos match_begin q m a b d e =
      let at_got : get_elem? (got ++ p ∷ todo) (length got + 0) ≡ some p =
        get_elem?-append got (p ∷ todo) 0 in
      let index : match_pos ≡ length got + 0 = omega (arith, b) in
      let here : get_elem? pattern' match_pos ≡ some p =
        ap (get_elem? pattern') index ∙ ap (λ x. get_elem? x (length got + 0)) q ∙ at_got in
      let size : length pattern' ≡ length got + suc (length todo) =
        ap (λ x. length x) q ∙ length-append got (p ∷ todo) in
      let hit' = hit ++ c ∷ [] in
      let same : hit' ++ rest ≡ hit ++ c ∷ rest = append_assoc hit (c ∷ []) rest in
      let longer : length hit' ≡ length hit + 1 = omega (arith, length-append hit (c ∷ [])) in
      elim (Bool-cases (same_char c p)) [
        | inr miss ↦ elim (List-cases pattern') [
          | inl empty ↦ absurd (ground (arith, q, empty, List-cases got))
          | inr (p0, todo0, full) ↦
              let before' = before ++ hit' in
              let size' : length before' ≡ length before + length hit' =
                length-append before hit' in
              Match-move (append_assoc before hit' rest ∙ ap (λ x. before ++ x) same) (
                find_from-Match before' [] rest [] todo0 p0 (pos + 1) 0 pos full (refl)
                  (omega (arith, a, size', longer)) refl (omega (arith, a, size', longer))
                  (sym (find_from-miss pattern' rest c p pos match_pos match_begin here miss) ∙ e))
        ]
        | inl good ↦
            let fits = matches-append hit got c p m good in
            elim (List-cases todo) [
              | inl empty ↦
                  let end : some (match_begin, pos) ≡ some (first, last) =
                    sym (
                      find_from-end pattern' rest c p pos match_pos match_begin here good
                        (ground (arith, size, b, empty)))
                    ∙ e in
                  let whole : got ++ p ∷ [] ≡ pattern' = sym (q ∙ ap (λ x. got ++ p ∷ x) empty) in
                  record {
                    before = before;
                    hit = hit';
                    after = rest;
                    split = ap (λ x. before ++ x) (sym same);
                    fits = ap (matches hit') (sym whole) ∙ fits;
                    at_end = ground (arith, end, a, longer);
                    at_begin = ground (arith, end, d);
                  }
              | inr (x, xs, more) ↦ Match-move (ap (λ y. before ++ y) same) (
                  find_from-Match before hit' rest (got ++ p ∷ []) xs x (pos + 1) (match_pos + 1)
                    match_begin
                    (q ∙ ap (λ y. got ++ p ∷ y) more ∙ sym (append_assoc got (p ∷ []) (x ∷ xs)))
                    fits (omega (arith, a, longer)) (omega (arith, b, length-append got (p ∷ []))) d
                    (sym (
                        find_from-hit pattern' rest c p pos match_pos match_begin here good
                          (ground (arith, size, b, more)))
                      ∙ e))
            ]
      ]

-- What findFirstPattern finds in a text for a pattern of one byte or more is there: as many bytes of the
-- text as the pattern has, which match it, up to the second position and including it; the first
-- position is the one before them, or the start of the text where they are at its start.
pub find_first_pattern-Match :
    (text : Bytes) (p : ℕ) (ps : Bytes) (first last : ℕ)
    → find_first_pattern text (p ∷ ps) ≡ some (first, last)
    → Match text (p ∷ ps) first last
unfolding find_first_pattern matches
find_first_pattern-Match text p ps first last e =
    find_from-Match (p ∷ ps) first last [] [] text [] ps p 0 0 0 refl refl refl refl refl e
