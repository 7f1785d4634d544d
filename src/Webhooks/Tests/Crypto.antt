-- ===== src/Webhooks/Tests/Crypto.antt =====
-- A run of the encryption of backend/poi_admin/webhooks/crypto.py with stand-ins for the libraries.
use poi_hub.Base.{ℕ, String, ◌≡◌, refl, true, Option, none, some, List, if◌then◌else◌}
use poi_hub.Base.Text.{codes}
use poi_hub.Base.Bytes.{replicate, same_bytes}
use poi_hub.Webhooks.Crypto.{Codecs, is_ascii, encrypt_message, decrypt_message}
use poi_hub.Webhooks.Crypto.Framing.{IsFaithful, plaintext, decrypt_message-encrypt_message}

abbrev aes_key : String
aes_key = "0123456789abcdef0123456789abcdef0123456789abcdef0123456789abcdef"

abbrev sixteen : List ℕ
sixteen = replicate 16 7

abbrev bytes_of : String → List ℕ
bytes_of s = codes s

abbrev text_of : List ℕ → Option String
text_of bs = if same_bytes bs (codes "wx") then some "wx" else some "hello"

abbrev open_codecs : (String → Option (List ℕ)) → Codecs
open_codecs unbase = record {
  utf8 = bytes_of;
  of_utf8 = text_of;
  base64 = λ bs. "encrypted";
  of_base64 = unbase;
  of_hex = λ s. some (replicate 32 0);
  sha1 = λ s. s;
  aes = λ key bs. bs;
  of_aes = λ key bs. some bs;
}

abbrev codecs : Codecs
unfolding plaintext
codecs = open_codecs (λ s. some (plaintext (open_codecs (λ s. none)) sixteen "hello" "wx"))

faithful : IsFaithful codecs sixteen "hello" "wx"
unfolding plaintext codecs
faithful = record { utf8 = refl; utf8_app = refl; base64 = λ key. refl; aes = λ key. refl }

ascii : is_ascii "wx" ≡ true
unfolding is_ascii
ascii = refl

encrypt : encrypt_message codecs sixteen "hello" aes_key "wx" ≡ some "encrypted"
unfolding encrypt_message codecs
encrypt = refl

decrypt_message-encrypt_message_example :
    decrypt_message codecs "encrypted" aes_key "wx" ≡ some "hello"
decrypt_message-encrypt_message_example =
    decrypt_message-encrypt_message codecs sixteen "hello" aes_key "wx" "encrypted" faithful ascii
      refl encrypt
