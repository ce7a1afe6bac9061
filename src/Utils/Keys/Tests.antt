-- ===== src/Utils/Keys/Tests.antt =====
-- Concrete nested keys of src/utils/keys.ts, with the bytes of ASCII for text.
use Prim.Native.Nat.{compare, Ordering}
use Prim.Native.Char.{Char, char, code, nul}
use dao_dao_indexer.Prelude.{
  ℕ, ◌%◌, ◌<◌, ◌≡◌, refl, false, List, [], ◌∷◌, map, String, some, arith, All,
}
use dao_dao_indexer.Utils.Keys.{
  KeyInput, text, bytes, number, big_endian, db_key_for_keys, db_key_to_keys_advanced,
  db_key_to_keys,
}
use dao_dao_indexer.Utils.Keys.RoundTrip.{type_of, db_key_to_keys_advanced-db_key_for_keys}
use dao_dao_indexer.Utils.Keys.Bytes.{db_key_for_keys-All}

abbrev ascii_encode : String → List ℕ
ascii_encode String.[] = []
ascii_encode (String.◌∷◌ c s) = code c % 256 ∷ ascii_encode s

abbrev ascii_char : (n : ℕ) (o : Ordering) → compare n 55296 ≡ o → Char
ascii_char n Ordering.lt e = char n (rw e tt)
ascii_char n Ordering.eq e = nul
ascii_char n Ordering.gt e = nul

abbrev ascii_decode : List ℕ → String
ascii_decode [] = ""
ascii_decode (b ∷ bs) = String.◌∷◌ (ascii_char b (compare b 55296) refl) (ascii_decode bs)

ascii_encode-All : (s : String) → All (λ b. b < 256) (ascii_encode s)
ascii_encode-All String.[] = tt
ascii_encode-All (String.◌∷◌ c s) = (omega arith, ascii_encode-All s)

abbrev keys : List KeyInput
keys = text "ab" ∷ number 258 ∷ bytes (7 ∷ []) ∷ []

abbrev written : List ℕ
written = 0 ∷ 2 ∷ 97 ∷ 98 ∷ 0 ∷ 8 ∷ 0 ∷ 0 ∷ 0 ∷ 0 ∷ 0 ∷ 0 ∷ 1 ∷ 2 ∷ 7 ∷ []

keys_written : db_key_for_keys ascii_encode keys ≡ some written
unfolding db_key_for_keys
keys_written = refl

-- An empty key is read back as the text of one byte 0.
empty_not_read_back :
    (db_key_for_keys ascii_encode (text "" ∷ []) ≡ some [])
    × (db_key_to_keys ascii_decode [] (false ∷ []) ≡ some (text (ascii_decode (0 ∷ [])) ∷ []))
unfolding db_key_for_keys db_key_to_keys
empty_not_read_back = (refl, refl)

db_key_to_keys_advanced-db_key_for_keys_example :
    db_key_to_keys_advanced ascii_decode written (map type_of keys) ≡ some keys
db_key_to_keys_advanced-db_key_for_keys_example =
    db_key_to_keys_advanced-db_key_for_keys ascii_encode ascii_decode keys (refl, (tt, (tt, tt)))
      keys_written (λ empty. cc)

db_key_for_keys-All_example :
    (key : List ℕ) × (db_key_for_keys ascii_encode keys ≡ some key) × All (λ b. b < 256) key
unfolding big_endian
db_key_for_keys-All_example =
    db_key_for_keys-All ascii_encode ascii_encode-All keys
      (tt, (omega arith, (omega arith, (omega arith, (omega arith, tt)))))
