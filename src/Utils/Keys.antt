-- ===== src/Utils/Keys.antt =====
-- src/utils/keys.ts, `dbKeyForKeys` and `dbKeyToKeysAdvanced`: the nested keys of contracts as bytes.
--
-- The comma-separated text of a key is the list of its numbers here; the empty text is read back as
-- one number that is not one, which a buffer holds as 0. A buffer that is written at rising offsets
-- is the list of what is written, and the offset of a reader is what is left of the buffer; an error
-- is `none`. The UTF-8 encoding of Node.js is a parameter. `parseInt` of hexadecimal digits is exact,
-- as it is for the encoding of a number of the language.
pub mod BigEndian
pub mod RoundTrip
pub mod Bytes
pub mod Tests
use dao_dao_indexer.Prelude.{
  ℕ, zero, suc, ◌+◌, ◌*◌, ◌/◌, ◌%◌, ◌^◌, Bool, true, false, List, [], ◌∷◌, ◌++◌, map, length,
  String, Option, none, some, take, drop, ltb, if◌then◌else◌,
}

infixl 5 ◌>>=◌
abbrev pub ◌>>=◌ {ℓ κ} : {A : Type ℓ} {B : Type κ} → Option A → (A → Option B) → Option B
none >>= f = none
some a >>= f = f a

pub data KeyInput : Type 0 where
  text : String → KeyInput
  bytes : List ℕ → KeyInput
  number : ℕ → KeyInput
  not_a_number : KeyInput

pub data KeyInputType : Type 0 where
  string_type : KeyInputType
  number_type : KeyInputType
  bytes_type : KeyInputType

-- Big-endian bytes of a width.
unfoldable pub big_endian : (width : ℕ) → ℕ → List ℕ
big_endian zero n = []
big_endian (suc width) n = big_endian width (n / 256) ++ n % 256 ∷ []

unfoldable pub from_big_endian : ℕ → List ℕ → ℕ
from_big_endian acc [] = acc
from_big_endian acc (b ∷ bs) = from_big_endian (acc * 256 + b) bs

-- `writeUInt16BE` and `writeBigUInt64BE` refuse a number that does not fit.
abbrev pub write_uint : (width : ℕ) → ℕ → Option (List ℕ)
write_uint width n = if ltb n (256 ^ width) then some (big_endian width n) else none

abbrev pub read_uint16_be : List ℕ → Option ℕ
read_uint16_be [] = none
read_uint16_be (a ∷ []) = none
read_uint16_be (a ∷ b ∷ bs) = some (a * 256 + b)

-- Each namespace after its length, and then the key; without keys, the last one is undefined.
unfoldable pub write_keys : List (List ℕ) → Option (List ℕ)
unfolding big_endian
write_keys [] = none
write_keys (key ∷ []) = some key
write_keys (namespace ∷ key ∷ keys) = do
  size ← write_uint 2 (length namespace)
  rest ← write_keys (key ∷ keys)
  some (size ++ namespace ++ rest)

abbrev pub parsed_number : List ℕ → KeyInput
parsed_number [] = not_a_number
parsed_number (b ∷ bs) = number (from_big_endian 0 (b ∷ bs))

-- The bytes of a text that is split at its commas.
abbrev pub split_bytes : List ℕ → List ℕ
split_bytes [] = 0 ∷ []
split_bytes (b ∷ bs) = b ∷ bs

module _ (utf8_encode : String → List ℕ) where
  unfoldable pub key_to_buffer : KeyInput → Option (List ℕ)
  unfolding big_endian
  key_to_buffer (text s) = some (utf8_encode s)
  key_to_buffer (bytes bs) = some bs
  key_to_buffer (number n) = write_uint 8 n
  key_to_buffer not_a_number = none

  unfoldable pub keys_to_buffers : List KeyInput → Option (List (List ℕ))
  unfolding key_to_buffer
  keys_to_buffers [] = some []
  keys_to_buffers (k ∷ keys) = do
    buffer ← key_to_buffer k
    buffers ← keys_to_buffers keys
    some (buffer ∷ buffers)

  unfoldable pub db_key_for_keys : List KeyInput → Option (List ℕ)
  unfolding keys_to_buffers write_keys
  db_key_for_keys keys = do buffers ← keys_to_buffers keys; write_keys buffers

module _ (utf8_decode : List ℕ → String) where
  abbrev pub typed_key : KeyInputType → List ℕ → KeyInput
  typed_key string_type buffer = text (utf8_decode buffer)
  typed_key number_type buffer = parsed_number buffer
  typed_key bytes_type buffer = bytes buffer

  -- Without types, the only key has the type undefined, and is bytes.
  unfoldable pub read_keys : List KeyInputType → List ℕ → Option (List KeyInput)
  unfolding from_big_endian
  read_keys [] buffer = some (bytes buffer ∷ [])
  read_keys (type ∷ []) buffer = some (typed_key type buffer ∷ [])
  read_keys (type ∷ next ∷ types) buffer = do
    size ← read_uint16_be buffer
    keys ← read_keys (next ∷ types) (drop size (drop 2 buffer))
    some (typed_key type (take size (drop 2 buffer)) ∷ keys)

  unfoldable pub db_key_to_keys_advanced : List ℕ → List KeyInputType → Option (List KeyInput)
  unfolding read_keys
  db_key_to_keys_advanced key types = read_keys types (split_bytes key)

  unfoldable pub db_key_to_keys : List ℕ → List Bool → Option (List KeyInput)
  unfolding db_key_to_keys_advanced
  db_key_to_keys key with_numeric_keys =
      db_key_to_keys_advanced key
        (map (λ numeric. if numeric then number_type else string_type) with_numeric_keys)
