-- ===== src/IpAddr/Mapped.antt =====
-- src/types.hpp: the bytes of addresses, and the mapped IPv4 addresses.
use epoller.Prelude.{
  ℕ, zero, suc, ◌*◌, ◌<◌, ◌≤◌, true, [], ◌∷◌, ◌++◌, Bytes, length, take, ◌≡◌, ◌↔◌, refl, arith,
}
use epoller.Endian.{Host, little, big, word16, to_memory16, from_memory32}
use epoller.IpAddr.{
  set_ipv4, set_ipv4_word, words_of, set, memory_of, get, same_words, is_ipv4_addr,
}

-- The bytes of ::ffff:0:0/96.
abbrev pub mapped_prefix : Bytes
mapped_prefix = 0 ∷ 0 ∷ 0 ∷ 0 ∷ 0 ∷ 0 ∷ 0 ∷ 0 ∷ 0 ∷ 0 ∷ 0xff ∷ 0xff ∷ []

memory-word16 :
    (h : Host) (b0 b1 : ℕ) → b0 < 256 → b1 < 256 → to_memory16 h (word16 h b1 b0) ≡ (b0, b1)
unfolding word16 to_memory16
memory-word16 little b0 b1 p q = ground arith
memory-word16 big b0 b1 p q = ground arith

-- A list of whole words.
pub data IsWords : Bytes → Type 0 where
  nil : IsWords []
  cons : {b0 b1 : ℕ} {bs : Bytes} → b0 < 256 → b1 < 256 → IsWords bs → IsWords (b0 ∷ b1 ∷ bs)

memory_of-words_of : (h : Host) {bs : Bytes} → IsWords bs → memory_of h (words_of h bs) ≡ bs
unfolding memory_of words_of
memory_of-words_of h nil = refl
memory_of-words_of h (cons {b0} {b1} p q w) = rw (memory-word16 h b0 b1 p q, memory_of-words_of h w)

-- Reading back an address gives the bytes that it was set from, on a host of either kind.
pub get-set : (h : Host) {bs : Bytes} → IsWords bs → get h (set h bs) ≡ bs
unfolding get set
get-set h w = memory_of-words_of h w

-- The sixteen bytes of a mapped address.
abbrev pub mapped : ℕ → ℕ → ℕ → ℕ → Bytes
mapped s0 s1 s2 s3 = mapped_prefix ++ s0 ∷ s1 ∷ s2 ∷ s3 ∷ []

IsWords-zeros : {bs : Bytes} → IsWords bs → IsWords (0 ∷ 0 ∷ bs)
IsWords-zeros = cons (omega arith) (omega arith)

pub mapped-IsWords :
    (s0 s1 s2 s3 : ℕ) → s0 < 256 → s1 < 256 → s2 < 256 → s3 < 256 → IsWords (mapped s0 s1 s2 s3)
mapped-IsWords s0 s1 s2 s3 p0 p1 p2 p3 = IsWords-zeros (
    IsWords-zeros (
      IsWords-zeros (
        IsWords-zeros
          (IsWords-zeros (cons (omega arith) (omega arith) (cons p0 p1 (cons p2 p3 nil)))))))

set_ipv4-eq-set : (h : Host) (s0 s1 s2 s3 : ℕ) → set_ipv4 h s0 s1 s2 s3 ≡ set h (mapped s0 s1 s2 s3)
unfolding set set_ipv4 word16
set_ipv4-eq-set little s0 s1 s2 s3 = refl
set_ipv4-eq-set big s0 s1 s2 s3 = refl

set_ipv4_word-eq-set_ipv4 :
    (h : Host) (s0 s1 s2 s3 : ℕ)
    → s0 < 256
    → s1 < 256
    → s2 < 256
    → s3 < 256
    → set_ipv4_word h (from_memory32 h s0 s1 s2 s3) ≡ set_ipv4 h s0 s1 s2 s3
unfolding set_ipv4_word set_ipv4 word16 from_memory32
set_ipv4_word-eq-set_ipv4 little s0 s1 s2 s3 p0 p1 p2 p3 = ground arith
set_ipv4_word-eq-set_ipv4 big s0 s1 s2 s3 p0 p1 p2 p3 = ground arith

-- An IPv4 address is stored as the mapped IPv6 address of its four bytes, whether it is set from the
-- bytes or from the 32-bit word whose memory holds them, on a host of either kind.
pub get-set_ipv4 :
    (h : Host) (s0 s1 s2 s3 : ℕ)
    → s0 < 256
    → s1 < 256
    → s2 < 256
    → s3 < 256
    → (get h (set_ipv4 h s0 s1 s2 s3) ≡ mapped s0 s1 s2 s3)
      × (set_ipv4_word h (from_memory32 h s0 s1 s2 s3) ≡ set_ipv4 h s0 s1 s2 s3)
get-set_ipv4 h s0 s1 s2 s3 p0 p1 p2 p3 = (
  rw (set_ipv4-eq-set h s0 s1 s2 s3) (get-set h (mapped-IsWords s0 s1 s2 s3 p0 p1 p2 p3)),
  set_ipv4_word-eq-set_ipv4 h s0 s1 s2 s3 p0 p1 p2 p3,
)

word16-injective :
    (h : Host) (a b c d : ℕ)
    → a < 256
    → b < 256
    → c < 256
    → d < 256
    → word16 h a b ≡ word16 h c d
    → (a ≡ c) × (b ≡ d)
unfolding word16
word16-injective little a b c d pa pb pc pd e = omega arith
word16-injective big a b c d pa pb pc pd e = omega arith

same_words_iff :
    (h : Host) (n : ℕ) {bs ps : Bytes}
    → IsWords bs
    → IsWords ps
    → 2 * n ≤ length bs
    → 2 * n ≤ length ps
    → (same_words n (words_of h bs) (words_of h ps) ≡ true) ↔ (take (2 * n) bs ≡ take (2 * n) ps)
unfolding same_words words_of
same_words_iff h zero wb wp lb lp = (λ _. refl, λ _. refl)
same_words_iff h (suc n) nil wp lb lp = absurd (omega arith)
same_words_iff h (suc n) (cons p q wb) nil lb lp = absurd (omega arith)
same_words_iff h (suc n) (cons {b0} {b1} {bs} p q wb) (cons {b0 = c0} {b1 = c1} {bs = cs} r s wp) lb
      lp =
    let ih = same_words_iff h n wb wp (omega arith) (omega arith) in
    let e : 2 * suc n ≡ suc (suc (2 * n)) = omega arith in
    rw e ((λ t. ground (arith, word16-injective h b1 b0 c1 c0, ih.0)), (λ t. ground (arith, ih.1)))

-- An address set from sixteen bytes is taken for an IPv4 address exactly when its first twelve bytes
-- are those of the mapped prefix, on a host of either kind.
is_ipv4_addr-set :
    (h : Host) {bs : Bytes}
    → IsWords bs
    → length bs ≡ 16
    → (is_ipv4_addr (set h bs) ≡ true) ↔ (take 12 bs ≡ mapped_prefix)
unfolding is_ipv4_addr set word16 words_of
is_ipv4_addr-set little w l =
    same_words_iff little 6 w
      (mapped-IsWords 0 0 0 0 (omega arith) (omega arith) (omega arith) (omega arith)) (omega arith)
      (omega arith)
is_ipv4_addr-set big w l =
    same_words_iff big 6 w
      (mapped-IsWords 0 0 0 0 (omega arith) (omega arith) (omega arith) (omega arith)) (omega arith)
      (omega arith)
