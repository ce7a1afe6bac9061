-- ===== src/Utils/Keys/BigEndian.antt =====
-- The big-endian numbers of src/utils/keys.ts.
use dao_dao_indexer.Prelude.{
  ℕ, zero, suc, ◌+◌, ◌*◌, ◌/◌, ◌%◌, ◌^◌, ◌<◌, ◌≡◌, refl, sym, ap, ◌∙◌, List, [], ◌∷◌, ◌++◌, some,
  arith, All,
}
use dao_dao_indexer.Utils.Keys.{big_endian, from_big_endian, read_uint16_be}

from_big_endian-append :
    (acc : ℕ) (bs : List ℕ) (b : ℕ)
    → from_big_endian acc (bs ++ b ∷ []) ≡ from_big_endian acc bs * 256 + b
unfolding from_big_endian
from_big_endian-append acc [] b = refl
from_big_endian-append acc (c ∷ bs) b = from_big_endian-append (acc * 256 + c) bs b

-- A number that is 0 after as many divisions as the width.
abbrev Fits : ℕ → ℕ → Type 0
Fits zero n = n ≡ 0
Fits (suc width) n = Fits width (n / 256)

from_big_endian-big_endian :
    (width n : ℕ) → Fits width n → from_big_endian 0 (big_endian width n) ≡ n
unfolding from_big_endian big_endian
from_big_endian-big_endian zero n h = sym h
from_big_endian-big_endian (suc width) n h =
    from_big_endian-append 0 (big_endian width (n / 256)) (n % 256)
    ∙ ap (λ m. m * 256 + n % 256) (from_big_endian-big_endian width (n / 256) h)
    ∙ omega arith

-- A number below 2 ^ 64 is read back from its 8 bytes.
pub from_big_endian_8 : (n : ℕ) → n < 256 ^ 8 → from_big_endian 0 (big_endian 8 n) ≡ n
from_big_endian_8 n h = from_big_endian-big_endian 8 n (omega (arith, h))

pub read_uint16_be-big_endian :
    (n : ℕ) (rest : List ℕ) → n < 256 ^ 2 → read_uint16_be (big_endian 2 n ++ rest) ≡ some n
unfolding big_endian
read_uint16_be-big_endian n rest h = ap some (omega (arith, h))

pub All-append :
    (xs ys : List ℕ) (bound : ℕ)
    → All (λ b. b < bound) xs
    → All (λ b. b < bound) ys
    → All (λ b. b < bound) (xs ++ ys)
All-append [] ys bound h k = k
All-append (x ∷ xs) ys bound h k = (h.0, All-append xs ys bound h.1 k)

pub big_endian-All : (width n : ℕ) → All (λ b. b < 256) (big_endian width n)
unfolding big_endian
big_endian-All zero n = tt
big_endian-All (suc width) n =
    All-append (big_endian width (n / 256)) (n % 256 ∷ []) 256 (big_endian-All width (n / 256))
      (omega arith, tt)
