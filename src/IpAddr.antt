-- ===== src/IpAddr.antt =====
-- src/types.hpp: struct IpAddr and class InetDest. An address is eight words, each in the memory
-- order of the network; get() reads the memory of the array as sixteen bytes.
pub mod Mapped
mod Tests
use epoller.Prelude.{
  ℕ, zero, suc, ◌+◌, ◌-◌, ◌*◌, ◌/◌, ◌%◌, ◌^◌, Bool, true, false, not, ◌&&◌, List, [], ◌∷◌, ◌++◌,
  Bytes, ◌==◌, if◌then◌else◌, get_elem?, length,
}
use epoller.Endian.{Host, little, big, word16, to_memory16, network_endian16}

pub record IpAddr : Type 0 where
  pub d : List ℕ

pub record InetDest : Type 0 where
  pub addr : IpAddr
  pub valid : Bool
  pub port : ℕ
  pub if_index : ℕ

-- ip4Prefix, and the words of it that are compared.
abbrev pub ip4_prefix : List ℕ
ip4_prefix = 0 ∷ 0 ∷ 0 ∷ 0 ∷ 0 ∷ 0xffff ∷ 0 ∷ 0 ∷ []

abbrev pub ip4_prefix_len : ℕ
ip4_prefix_len = 6

-- The first `ip4_prefix_len` words of the prefix, followed by the two words of the address.
abbrev with_prefix : ℕ → ℕ → IpAddr
with_prefix hi lo = record { d = 0 ∷ 0 ∷ 0 ∷ 0 ∷ 0 ∷ 0xffff ∷ hi ∷ lo ∷ [] }

-- setIpV4(Bytes const&): the four bytes stand in network order.
unfoldable pub set_ipv4 : Host → ℕ → ℕ → ℕ → ℕ → IpAddr
set_ipv4 h s0 s1 s2 s3 = with_prefix (word16 h s1 s0) (word16 h s3 s2)

-- setIpV4(uint32_t): the union reads the two halves of the word in memory order.
unfoldable pub set_ipv4_word : Host → ℕ → IpAddr
set_ipv4_word little addr = with_prefix (addr % 2 ^ 16) (addr / 2 ^ 16 % 2 ^ 16)
set_ipv4_word big addr = with_prefix (addr / 2 ^ 16 % 2 ^ 16) (addr % 2 ^ 16)

-- The loop of set(): d[i] = networkEndian(netOrder[i * 2 + 1], netOrder[i * 2]).
unfoldable pub words_of : Host → Bytes → List ℕ
words_of h [] = []
words_of h (b ∷ []) = []
words_of h (b0 ∷ b1 ∷ net_order) = word16 h b1 b0 ∷ words_of h net_order

unfoldable pub set : Host → Bytes → IpAddr
unfolding words_of
set h net_order = record { d = words_of h net_order }

-- get(): the memory of the words.
unfoldable pub memory_of : Host → List ℕ → Bytes
memory_of h [] = []
memory_of h (w ∷ ws) = (to_memory16 h w).0 ∷ (to_memory16 h w).1 ∷ memory_of h ws

unfoldable pub get : Host → IpAddr → Bytes
unfolding memory_of
get h a = memory_of h a.d

-- The loop of isIpv4Addr() over the words of the prefix.
unfoldable pub same_words : ℕ → List ℕ → List ℕ → Bool
same_words zero d prefix = true
same_words (suc n) (x ∷ xs) (y ∷ ys) = if not (x == y) then false else same_words n xs ys
same_words (suc n) _ _ = false

unfoldable pub is_ipv4_addr : IpAddr → Bool
unfolding same_words
is_ipv4_addr a = same_words ip4_prefix_len a.d ip4_prefix

-- `stream << std::hex << w` for a 16-bit word: no leading zeros.
abbrev hex_digit : ℕ → ℕ
hex_digit n = if n / 10 == 0 then n + b'0' else n - 10 + b'a'

unfoldable pub hex16 : ℕ → Bytes
hex16 w =
    if w / 0x1000 == 0
    then (if w / 0x100 == 0
        then (if w / 0x10 == 0
            then hex_digit w ∷ []
            else hex_digit (w / 16) ∷ hex_digit (w % 16) ∷ [])
        else hex_digit (w / 0x100) ∷ hex_digit (w / 16 % 16) ∷ hex_digit (w % 16) ∷ [])
    else hex_digit (w / 0x1000)
      ∷ hex_digit (w / 0x100 % 16)
      ∷ hex_digit (w / 16 % 16)
      ∷ hex_digit (w % 16)
      ∷ []

-- toString(): the words in host order, in hexadecimal, with colons between them.
unfoldable pub join_words : List ℕ → Bytes
unfolding hex16
join_words [] = []
join_words (w ∷ []) = hex16 (network_endian16 w)
join_words (w ∷ v ∷ ws) = hex16 (network_endian16 w) ++ b':' ∷ join_words (v ∷ ws)

unfoldable pub to_string : IpAddr → Bytes
unfolding join_words
to_string a = join_words a.d
