-- ===== src/Query/Name/Wire.antt =====
-- Names as lists of labels: the text with dots between them, and the form that a message has.
use epoller.Prelude.{ℕ, ◌<◌, ◌≢◌, List, [], ◌∷◌, ◌++◌, Bytes, All, length}

abbrev pub IsLabelChar : ℕ → Type 0
IsLabelChar c = (c ≢ 0) × (c ≢ b'.') × (c < 256)

-- A label: one to 63 characters, none of them a dot or a zero.
pub record IsLabel (l : Bytes) : Type 0 where
  pub chars : All IsLabelChar l
  pub nonempty : 0 < length l
  pub short : length l < 64

-- The labels with a dot in front of each.
abbrev pub dotted : List Bytes → Bytes
dotted [] = []
dotted (l ∷ ls) = b'.' ∷ (l ++ dotted ls)

-- The text of a name with the first label `l` and the others `ls`.
abbrev pub text_of : Bytes → List Bytes → Bytes
text_of l ls = l ++ dotted ls

-- The labels of a message, each behind its length, without the final zero.
abbrev pub counted : List Bytes → Bytes
counted [] = []
counted (l ∷ ls) = length l ∷ (l ++ counted ls)

-- The name in a message.
abbrev pub wire : Bytes → List Bytes → Bytes
wire l ls = counted (l ∷ ls) ++ 0 ∷ []

-- A name whose text and whose form in a message stay within what size_t can count.
pub record IsName (l : Bytes) (ls : List Bytes) : Type 0 where
  pub first : IsLabel l
  pub others : All IsLabel ls
  pub counts : length (text_of l ls) < 0x8000_0000_0000_0000
