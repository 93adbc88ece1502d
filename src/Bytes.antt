-- ===== src/Bytes.antt =====
-- Words in memory: the target is little-endian (FDB_BIG_ENDIAN is not defined), so a `uint32_t`
-- field of a structure is four bytes, the lowest first.
use flashdb_ko.Prelude.{ℕ, ◌+◌, ◌*◌, ◌/◌, ◌%◌, ◌<◌, ◌≡◌, List, [], ◌∷◌, ◌++◌, get_or, arith}

unfoldable pub le32 : ℕ → List ℕ
le32 v = v % 256 ∷ v / 256 % 256 ∷ v / 65536 % 256 ∷ v / 16777216 % 256 ∷ []

-- The word at offset `i` of a buffer.
unfoldable pub word_at : List ℕ → ℕ → ℕ
word_at buf i =
    (get_or buf i 0
      + get_or buf (i + 1) 0 * 256
      + get_or buf (i + 2) 0 * 65536
      + get_or buf (i + 3) 0 * 16777216)
    % 0x1_0000_0000

pub word_at-le32 : (v : ℕ) (rest : List ℕ) → v < 0x1_0000_0000 → word_at (le32 v ++ rest) 0 ≡ v
unfolding word_at le32
word_at-le32 v rest h = omega arith

-- The four bytes of a word make up the word.
pub word_bytes :
    (v : ℕ)
    → v < 0x1_0000_0000
    → (v % 256 + v / 256 % 256 * 256 + v / 65536 % 256 * 65536 + v / 16777216 % 256 * 16777216)
        % 0x1_0000_0000
      ≡ v
word_bytes v h = omega arith
