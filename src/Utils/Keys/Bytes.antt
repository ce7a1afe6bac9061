-- ===== src/Utils/Keys/Bytes.antt =====
-- src/utils/keys.ts: which keys can be written as a nested key, and that it consists of bytes.
use dao_dao_indexer.Prelude.{
  ℕ, ◌^◌, ◌<◌, ◌≡◌, refl, true, List, [], ◌∷◌, ◌++◌, length, String, some, ltb, arith, All,
}
use dao_dao_indexer.Utils.Keys.{
  KeyInput, text, bytes, number, not_a_number, big_endian, write_uint, write_keys, key_to_buffer,
  keys_to_buffers, db_key_for_keys,
}
use dao_dao_indexer.Utils.Keys.BigEndian.{All-append, big_endian-All}

write_uint_of_lt : (width n : ℕ) → n < 256 ^ width → write_uint width n ≡ some (big_endian width n)
write_uint_of_lt width n h = let fits : ltb n (256 ^ width) ≡ true = ground arith in rw fits refl

module _ (utf8_encode : String → List ℕ) where
  -- The bytes of a key.
  abbrev pub bytes_of : KeyInput → List ℕ
  bytes_of (text s) = utf8_encode s
  bytes_of (bytes bs) = bs
  bytes_of (number n) = big_endian 8 n
  bytes_of not_a_number = []

  -- A number fits 8 bytes, and the items of a byte array are bytes.
  abbrev pub IsKey : KeyInput → Type 0
  IsKey (text s) = Unit
  IsKey (bytes bs) = All (λ b. b < 256) bs
  IsKey (number n) = n < 256 ^ 8
  IsKey not_a_number = ⊥

  -- There is a key, and the length of each but the last fits 2 bytes.
  abbrev pub IsWritable : List KeyInput → Type 0
  IsWritable [] = ⊥
  IsWritable (k ∷ []) = IsKey k
  IsWritable (k ∷ l ∷ keys) = IsKey k × ((length (bytes_of k) < 256 ^ 2) × IsWritable (l ∷ keys))

  IsWritable-first : (k : KeyInput) (keys : List KeyInput) → IsWritable (k ∷ keys) → IsKey k
  IsWritable-first k [] h = h
  IsWritable-first k (l ∷ keys) h = h.0

  key_to_buffer_of_IsKey :
      (k : KeyInput) → IsKey k → key_to_buffer utf8_encode k ≡ some (bytes_of k)
  unfolding key_to_buffer
  key_to_buffer_of_IsKey (text s) h = refl
  key_to_buffer_of_IsKey (bytes bs) h = refl
  key_to_buffer_of_IsKey (number n) h = write_uint_of_lt 8 n h
  key_to_buffer_of_IsKey not_a_number h = absurd h

  module _ (encodes : (s : String) → All (λ b. b < 256) (utf8_encode s)) where
    bytes_of-All : (k : KeyInput) → IsKey k → All (λ b. b < 256) (bytes_of k)
    bytes_of-All (text s) h = encodes s
    bytes_of-All (bytes bs) h = h
    bytes_of-All (number n) h = big_endian-All 8 n
    bytes_of-All not_a_number h = tt

    written-All :
        (k : KeyInput) (keys : List KeyInput)
        → IsWritable (k ∷ keys)
        → (key : List ℕ) × (bs : List (List ℕ)) × (keys_to_buffers utf8_encode keys ≡ some bs)
          × (write_keys (bytes_of k ∷ bs) ≡ some key)
          × All (λ b. b < 256) key
    unfolding keys_to_buffers write_keys
    written-All k [] h = (bytes_of k, [], refl, refl, bytes_of-All k h)
    written-All k (l ∷ keys) (h, (fits, rest)) =
        let (key, bs, made, w, below) = written-All l keys rest in
        let l-IsKey = IsWritable-first l keys rest in
        (
          big_endian 2 (length (bytes_of k)) ++ bytes_of k ++ key,
          bytes_of l ∷ bs,
          rw (key_to_buffer_of_IsKey l l-IsKey, made) refl,
          rw (write_uint_of_lt 2 (length (bytes_of k)) fits, w) refl,
          All-append (big_endian 2 (length (bytes_of k)) ++ bytes_of k) key 256
              (All-append (big_endian 2 (length (bytes_of k))) (bytes_of k) 256
                (big_endian-All 2 (length (bytes_of k))) (bytes_of-All k h))
              below,
        )

    -- A list of keys that is not empty, where each number is below 2 ^ 64 and the length of each key
    -- but the last below 2 ^ 16, has a nested key, and each of its items is a byte. (The encoding of
    -- text and the byte arrays consist of bytes.)
    pub db_key_for_keys-All :
        (keys : List KeyInput)
        → IsWritable keys
        → (key : List ℕ) × (db_key_for_keys utf8_encode keys ≡ some key) × All (λ b. b < 256) key
    unfolding db_key_for_keys keys_to_buffers
    db_key_for_keys-All [] h = absurd h
    db_key_for_keys-All (k ∷ keys) h =
        let (key, bs, made, w, below) = written-All k keys h in
        (key, rw (key_to_buffer_of_IsKey k (IsWritable-first k keys h), made) w, below)
