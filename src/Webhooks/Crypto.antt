-- ===== src/Webhooks/Crypto.antt =====
-- The signatures and the framing of callbacks, of backend/poi_admin/webhooks/crypto.py. UTF-8,
-- base64, hexadecimal digits and SHA-1 are the standard library's, AES the cipher library's.
pub mod Framing
use poi_hub.Base.{
  ℕ, ◌+◌, ◌-◌, ◌*◌, ◌^◌, String, Bool, true, false, not, Option, none, some, List, [], ◌∷◌, ◌++◌,
  ◌&&◌, ◌||◌, ◌==◌, eqb, leb, ltb, if◌then◌else◌,
}
use Prim.Native.Nat.{◌/◌, ◌%◌}
use Prim.Native.String.{compare}
use Prim.Native.Nat.Ordering.{lt}
use poi_hub.Base.Text.{concat, strip_text, text_length, codes}
use poi_hub.Base.Rows.{any, length, sort_by}
use poi_hub.Base.Bytes.{take, drop, replicate, last, same_bytes}

-- what the module uses of the libraries; none is an exception
pub record Codecs : Type 0 where
  pub utf8 : String → List ℕ
  pub of_utf8 : List ℕ → Option String
  pub base64 : List ℕ → String
  pub of_base64 : String → Option (List ℕ)
  pub of_hex : String → Option (List ℕ)
  pub sha1 : String → String
  -- AES-CBC under a key, whose first half is the initial vector
  pub aes : List ℕ → List ℕ → List ℕ
  pub of_aes : List ℕ → List ℕ → Option (List ℕ)

before : String → String → Bool
before a b = elim (compare a b) [ lt ↦ true | _ ↦ false ]

unfoldable joined : List String → String
unfolding concat
joined [] = ""
joined (s ∷ ss) = concat s (joined ss)

abbrev optional : Option String → List String
optional none = []
optional (some s) = s ∷ []

unfoldable pub is_ascii : String → Bool
is_ascii s = not (any (λ k. leb 128 k) (codes s))

-- `compare_digest`, which raises a `TypeError` for a text that is not ASCII
unfoldable pub compare_digest : String → String → Option Bool
unfolding is_ascii
compare_digest a b = if is_ascii a && is_ascii b then some (a == b) else none

-- `verify_signature`
unfoldable verify_signature :
    Codecs → String → String → String → String → Option String → Option Bool
unfolding joined before compare_digest
verify_signature c token timestamp nonce signature encrypt =
    compare_digest
      (c.sha1 (joined (sort_by before ((token ∷ timestamp ∷ nonce ∷ []) ++ optional encrypt))))
      signature

abbrev option_bind : {A B : Type 0} → Option A → (A → Option B) → Option B
option_bind none f = none
option_bind (some a) f = f a

of_length : ℕ → List ℕ → Option (List ℕ)
of_length n xs = if eqb (length xs) n then some xs else none

-- the key of 32 bytes in base64 without its padding
unfoldable base64_key : Codecs → String → Option (List ℕ)
unfolding concat of_length
base64_key c s = option_bind (c.of_base64 (concat s "=")) (of_length 32)

-- `_key`: 64 hexadecimal digits, or base64
unfoldable pub key_of : Codecs → String → Option (List ℕ)
unfolding strip_text base64_key
key_of c value =
    let candidate = strip_text value in
    if eqb (text_length candidate) 64
    then elim (c.of_hex candidate) [ some k ↦ some k | none ↦ base64_key c candidate ]
    else base64_key c candidate

-- `value[-n:]` and `value[:-n]`
abbrev last_bytes : ℕ → List ℕ → List ℕ
last_bytes n xs = drop (length xs - n) xs

abbrev without_last : ℕ → List ℕ → List ℕ
without_last n xs = take (length xs - n) xs

-- `_unpad`
unfoldable pub unpad : List ℕ → Option (List ℕ)
unpad value = elim (last value) [
  | none ↦ none
  | some size ↦
      if ltb size 1 || ltb 32 size || not (same_bytes (last_bytes size value) (replicate size size))
      then none
      else some (without_last size value)
]

-- `raw + bytes([pad]) * pad`
unfoldable pub padded : List ℕ → List ℕ
padded raw = let pad = 32 - length raw % 32 in raw ++ replicate pad pad

-- `struct.pack("!I", n)`
unfoldable pub pack : ℕ → List ℕ
pack n = n / 2 ^ 24 ∷ n / 2 ^ 16 % 256 ∷ n / 2 ^ 8 % 256 ∷ n % 256 ∷ []

-- `struct.unpack("!I", bytes)[0]`, of four bytes
unfoldable pub unpack : List ℕ → ℕ
unpack (a ∷ b ∷ c ∷ d ∷ _) = a * 2 ^ 24 + b * 2 ^ 16 + c * 2 ^ 8 + d
unpack _ = 0

-- a message with its length, and the application that it is for
unfoldable pub frame : List ℕ → List ℕ → List ℕ → List ℕ
unfolding pack
frame random message app_id = random ++ (pack (length message) ++ (message ++ app_id))

-- `encrypt_message`; `random` is what `os.urandom(16)` gives, and a message of 2^32 bytes raises
unfoldable pub encrypt_message : Codecs → List ℕ → String → String → String → Option String
unfolding key_of frame padded
encrypt_message c random message aes_key app_id = elim (key_of c aes_key) [
  | none ↦ none
  | some key ↦
      if leb (2 ^ 32) (length (c.utf8 message))
      then none
      else some (c.base64 (c.aes key (padded (frame random (c.utf8 message) (c.utf8 app_id)))))
]

-- the message of a frame, and the application
unfoldable pub unframe : List ℕ → Option (List ℕ × List ℕ)
unfolding unpack
unframe f =
    let end' = 20 + unpack (take 4 (drop 16 f)) in
    if ltb (length f) 20
    then none
    else if ltb (length f) end'
    then none
    else some (take (end' - 20) (drop 20 f), drop end' f)

-- `decrypt_message`; every exception is a `ValueError` in the end
unfoldable pub decrypt_message : Codecs → String → String → String → Option String
unfolding key_of unpad unframe compare_digest
decrypt_message c encrypted aes_key app_id = option_bind (key_of c aes_key) λ key.
    option_bind (c.of_base64 encrypted) λ ciphertext. option_bind (c.of_aes key ciphertext) λ plain.
      option_bind (unpad plain) λ f. option_bind (unframe f) λ parts.
        option_bind (c.of_utf8 parts.0) λ message. option_bind (c.of_utf8 parts.1) λ embedded.
          option_bind (compare_digest embedded app_id) λ same. if same then some message else none
