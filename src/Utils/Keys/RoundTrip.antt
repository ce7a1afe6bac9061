-- ===== src/Utils/Keys/RoundTrip.antt =====
-- src/utils/keys.ts: a nested key is read back as the keys that it was written for.
use mathlib.Core.Path.{subst}
use dao_dao_indexer.Prelude.{
  ℕ, ◌^◌, ◌<◌, ◌≡◌, ◌≢◌, refl, sym, ap, ◌∙◌, List, [], ◌∷◌, ◌++◌, map, length, String, Option, none,
  some, take, drop, ltb, ltb→lt, Bool-cases, inl, inr, arith, All,
}
use dao_dao_indexer.Utils.Keys.{
  ◌>>=◌, KeyInput, text, bytes, number, not_a_number, KeyInputType, string_type, number_type,
  bytes_type, big_endian, write_uint, read_uint16_be, write_keys, parsed_number, split_bytes,
  key_to_buffer, keys_to_buffers, db_key_for_keys, typed_key, read_keys, db_key_to_keys_advanced,
}
use dao_dao_indexer.Utils.Keys.BigEndian.{from_big_endian_8, read_uint16_be-big_endian}

module _ {A B : Type 0} where
  bind-some :
      (o : Option A) (f : A → Option B) {c : B}
      → (o >>= f) ≡ some c
      → (a : A) × (o ≡ some a) × (f a ≡ some c)
  bind-some none f h = cc
  bind-some (some a) f h = (a, refl, h)

module _ {A : Type 0} where
  some-injective : {a b : A} → some a ≡ some b → a ≡ b
  some-injective h = cc

  take-append : (xs ys : List A) → take (length xs) (xs ++ ys) ≡ xs
  take-append [] ys = refl
  take-append (x ∷ xs) ys = ap (λ l. x ∷ l) (take-append xs ys)

  drop-append : (xs ys : List A) → drop (length xs) (xs ++ ys) ≡ ys
  drop-append [] ys = refl
  drop-append (x ∷ xs) ys = drop-append xs ys

-- The type to read a key back with.
unfoldable pub type_of : KeyInput → KeyInputType
type_of (text s) = string_type
type_of (bytes bs) = bytes_type
type_of (number n) = number_type
type_of not_a_number = number_type

write_uint-some :
    (width n : ℕ) {out : List ℕ}
    → write_uint width n ≡ some out
    → (n < 256 ^ width) × (big_endian width n ≡ out)
write_uint-some width n h = elim (Bool-cases (ltb n (256 ^ width))) [
  | inl fits ↦ (ltb→lt _ _ fits, ground (arith, h, fits))
  | inr over ↦ absurd (ground (arith, h, over))
]

parsed_number-big_endian : (n : ℕ) → n < 256 ^ 8 → parsed_number (big_endian 8 n) ≡ number n
unfolding big_endian
parsed_number-big_endian n h = ap number (from_big_endian_8 n h)

drop-big_endian : (n : ℕ) (rest : List ℕ) → drop 2 (big_endian 2 n ++ rest) ≡ rest
unfolding big_endian
drop-big_endian n rest = refl

split_bytes_of_filled : (key : List ℕ) → key ≢ [] → split_bytes key ≡ key
split_bytes_of_filled [] filled = absurd (filled refl)
split_bytes_of_filled (b ∷ bs) filled = refl

module _ (utf8_encode : String → List ℕ) (utf8_decode : List ℕ → String) where
  -- The text of a key is read back from its encoding, as text is that can be encoded.
  abbrev pub IsWellFormed : KeyInput → Type 0
  IsWellFormed (text s) = utf8_decode (utf8_encode s) ≡ s
  IsWellFormed (bytes bs) = Unit
  IsWellFormed (number n) = Unit
  IsWellFormed not_a_number = Unit

  typed_key-key_to_buffer :
      (k : KeyInput) {buffer : List ℕ}
      → IsWellFormed k
      → key_to_buffer utf8_encode k ≡ some buffer
      → typed_key utf8_decode (type_of k) buffer ≡ k
  unfolding key_to_buffer type_of
  typed_key-key_to_buffer (text s) decodes h =
      ap (λ b. text (utf8_decode b)) (sym (some-injective h)) ∙ ap text decodes
  typed_key-key_to_buffer (bytes bs) formed h = ap bytes (sym (some-injective h))
  typed_key-key_to_buffer (number n) formed h =
      let (fits, written) = write_uint-some 8 n h in
      ap parsed_number (sym written) ∙ parsed_number-big_endian n fits
  typed_key-key_to_buffer not_a_number formed h = cc

  read_keys-at :
      (t u : KeyInputType) (types : List KeyInputType) (buffer : List ℕ) (size : ℕ)
      → read_uint16_be buffer ≡ some size
      → read_keys utf8_decode (t ∷ u ∷ types) buffer ≡ (
          read_keys utf8_decode (u ∷ types) (drop size (drop 2 buffer)) >>= λ ks.
          some (typed_key utf8_decode t (take size (drop 2 buffer)) ∷ ks))
  unfolding read_keys
  read_keys-at t u types buffer size h = rw h refl

  read_keys-step :
      (t u : KeyInputType) (types : List KeyInputType) (namespace rest : List ℕ) {k : KeyInput}
      {keys : List KeyInput}
      → length namespace < 256 ^ 2
      → typed_key utf8_decode t namespace ≡ k
      → read_keys utf8_decode (u ∷ types) rest ≡ some keys
      → read_keys utf8_decode (t ∷ u ∷ types) (big_endian 2 (length namespace) ++ namespace ++ rest)
        ≡ some (k ∷ keys)
  unfolding big_endian
  read_keys-step t u types namespace rest {k} {keys} fits e h =
      let size = length namespace in
      read_keys-at t u types (big_endian 2 size ++ namespace ++ rest) size
        (read_uint16_be-big_endian size (namespace ++ rest) fits)
      ∙ ap
          (λ d. read_keys utf8_decode (u ∷ types) (drop size d) >>= λ ks.
            some (typed_key utf8_decode t (take size d) ∷ ks))
          (drop-big_endian size (namespace ++ rest))
      ∙ ap
          (λ d. read_keys utf8_decode (u ∷ types) d >>= λ ks.
            some (typed_key utf8_decode t (take size (namespace ++ rest)) ∷ ks))
          (drop-append namespace rest)
      ∙ ap (λ m. m >>= λ ks. some (typed_key utf8_decode t (take size (namespace ++ rest)) ∷ ks)) h
      ∙ ap (λ d. some (typed_key utf8_decode t d ∷ keys)) (take-append namespace rest)
      ∙ ap (λ j. some (j ∷ keys)) e

  -- The keys after the first one, with their bytes.
  read_keys-write_keys :
      (k : KeyInput) (keys : List KeyInput) {buffer : List ℕ} {buffers : List (List ℕ)}
      {out : List ℕ}
      → All IsWellFormed (k ∷ keys)
      → key_to_buffer utf8_encode k ≡ some buffer
      → keys_to_buffers utf8_encode keys ≡ some buffers
      → write_keys (buffer ∷ buffers) ≡ some out
      → read_keys utf8_decode (map type_of (k ∷ keys)) out ≡ some (k ∷ keys)
  unfolding read_keys keys_to_buffers write_keys
  read_keys-write_keys k [] {buffer} {buffers} {out} f b bs w =
      let last = subst (λ cs. write_keys (buffer ∷ cs) ≡ some out) (sym (some-injective bs)) w in
      ap (λ c. some (typed_key utf8_decode (type_of k) c ∷ [])) (sym (some-injective last))
      ∙ ap (λ j. some (j ∷ [])) (typed_key-key_to_buffer k f.0 b)
  read_keys-write_keys k (l ∷ keys) {buffer} {buffers} {out} f b bs w =
      let (c, lb, bs') = bind-some (key_to_buffer utf8_encode l) _ bs in
      let (cs, ks, same) = bind-some (keys_to_buffers utf8_encode keys) _ bs' in
      let w' = subst (λ ds. write_keys (buffer ∷ ds) ≡ some out) (sym (some-injective same)) w in
      let (size, sized, w1) = bind-some (write_uint 2 (length buffer)) _ w' in
      let (rest, rested, made) = bind-some (write_keys (c ∷ cs)) _ w1 in
      let (fits, written) = write_uint-some 2 (length buffer) sized in
      subst (λ o. read_keys utf8_decode (map type_of (k ∷ l ∷ keys)) o ≡ some (k ∷ l ∷ keys))
        (ap (λ z. z ++ buffer ++ rest) written ∙ some-injective made)
        (read_keys-step (type_of k) (type_of l) (map type_of keys) buffer rest fits
          (typed_key-key_to_buffer k f.0 b) (read_keys-write_keys l keys f.1 lb ks rested))

  -- A nested key that is written, unless it is empty, is read back as its keys, with their types.
  -- (Each text is read back from its encoding.)
  pub db_key_to_keys_advanced-db_key_for_keys :
      (keys : List KeyInput) {key : List ℕ}
      → All IsWellFormed keys
      → db_key_for_keys utf8_encode keys ≡ some key
      → key ≢ []
      → db_key_to_keys_advanced utf8_decode key (map type_of keys) ≡ some keys
  unfolding db_key_to_keys_advanced db_key_for_keys keys_to_buffers write_keys
  db_key_to_keys_advanced-db_key_for_keys [] f h filled = cc
  db_key_to_keys_advanced-db_key_for_keys (k ∷ keys) {key} f h filled =
      let (bs, made, w) = bind-some (keys_to_buffers utf8_encode (k ∷ keys)) _ h in
      let (b, kb, made') = bind-some (key_to_buffer utf8_encode k) _ made in
      let (cs, ks, same) = bind-some (keys_to_buffers utf8_encode keys) _ made' in
      let w' = subst (λ ds. write_keys ds ≡ some key) (sym (some-injective same)) w in
      ap (read_keys utf8_decode (map type_of (k ∷ keys))) (split_bytes_of_filled key filled)
      ∙ read_keys-write_keys k keys f kb ks w'

  -- No two lists of keys with the same types have the same nested key, unless it is empty. (Each
  -- text is read back from its encoding.)
  pub db_key_for_keys-injective :
      (keys others : List KeyInput) {key : List ℕ}
      → All IsWellFormed keys
      → All IsWellFormed others
      → db_key_for_keys utf8_encode keys ≡ some key
      → db_key_for_keys utf8_encode others ≡ some key
      → map type_of keys ≡ map type_of others
      → key ≢ []
      → keys ≡ others
  db_key_for_keys-injective keys others {key} f g h k same filled = some-injective (
      sym (db_key_to_keys_advanced-db_key_for_keys keys f h filled)
      ∙ ap (db_key_to_keys_advanced utf8_decode key) same
      ∙ db_key_to_keys_advanced-db_key_for_keys others g k filled)
