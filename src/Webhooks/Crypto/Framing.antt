-- ===== src/Webhooks/Crypto/Framing.antt =====
-- A callback that is encrypted and decrypted, of backend/poi_admin/webhooks/crypto.py.
use poi_hub.Base.{
  ℕ, suc, ◌+◌, ◌-◌, ◌^◌, ◌<◌, String, ◌≡◌, refl, subst, ◌∙◌, Option-cases, Bool-cases, inl, inr,
  false, true, some, List, ◌++◌, leb, ltb, arith, eq_refl,
}
use Prim.Native.Nat.{◌%◌}
use poi_hub.Base.Rows.{length}
use poi_hub.Base.Bytes.{
  take, drop, replicate, same_bytes_refl, length-append, length-replicate, take-append, drop-append,
  append_assoc, last-append_replicate,
}
use poi_hub.Webhooks.Crypto.{
  Codecs, key_of, unpad, padded, pack, unpack, frame, encrypt_message, unframe, decrypt_message,
  is_ascii, compare_digest,
}

unpack-pack : (n : ℕ) → n < 2 ^ 32 → unpack (pack n) ≡ n
unfolding unpack pack
unpack-pack n h = omega (arith, h)

unpad-replicate :
    (raw : List ℕ) (k : ℕ) → k < 32 → unpad (raw ++ replicate (suc k) (suc k)) ≡ some raw
unfolding unpad
unpad-replicate raw k h =
    rw
      (
        unpad,
        last-append_replicate raw k (suc k),
        whole,
        drop-append raw (replicate (suc k) (suc k)),
        take-append raw (replicate (suc k) (suc k)),
        same_bytes_refl (replicate k (suc k)),
      )
      (ground arith)
  where
    whole : length (raw ++ replicate (suc k) (suc k)) - suc k ≡ length raw
    whole =
        omega
          (arith, length-append raw (replicate (suc k) (suc k)), length-replicate (suc k) (suc k))

unpad-padded : (raw : List ℕ) → unpad (padded raw) ≡ some raw
unfolding padded
unpad-padded raw = with_pad (31 - length raw % 32) (omega arith) (omega arith)
  where
    with_pad :
        (k : ℕ)
        → 32 - length raw % 32 ≡ suc k
        → k < 32
        → unpad (raw ++ replicate (32 - length raw % 32) (32 - length raw % 32)) ≡ some raw
    with_pad k e h = rw e (unpad-replicate raw k h)

length-pack : (n : ℕ) → length (pack n) ≡ 4
unfolding pack
length-pack n = refl

drop-at : (n : ℕ) (xs ys : List ℕ) → length xs ≡ n → drop n (xs ++ ys) ≡ ys
drop-at n xs ys e = rw (← e) (drop-append xs ys)

take-at : (n : ℕ) (xs ys : List ℕ) → length xs ≡ n → take n (xs ++ ys) ≡ xs
take-at n xs ys e = rw (← e) (take-append xs ys)

-- a frame with these parts
unframe-parts :
    (f message app_id : List ℕ)
    → unpack (take 4 (drop 16 f)) ≡ length message
    → drop 20 f ≡ message ++ app_id
    → drop (20 + length message) f ≡ app_id
    → length f ≡ 20 + (length message + length app_id)
    → unframe f ≡ some (message, app_id)
unfolding unframe
unframe-parts f message app_id size from_message from_app total =
    rw
      (
        unframe,
        size,
        from_message,
        from_app,
        take-at (20 + length message - 20) message app_id (omega arith),
        long,
        whole,
      )
      refl
  where
    long : ltb (length f) 20 ≡ false
    long = ground (arith, total)

    whole : ltb (length f) (20 + length message) ≡ false
    whole = ground (arith, total)

unframe-frame :
    (random message app_id : List ℕ)
    → length random ≡ 16
    → length message < 2 ^ 32
    → unframe (frame random message app_id) ≡ some (message, app_id)
unfolding frame
unframe-frame random message app_id sixteen short =
    unframe-parts (random ++ (p ++ (message ++ app_id))) message app_id size
      (subst (λ f. drop 20 f ≡ message ++ app_id) (append_assoc random p (message ++ app_id))
        (drop-at 20 (random ++ p) (message ++ app_id) head))
      (subst (λ f. drop (20 + length message) f ≡ app_id) joined
        (drop-at (20 + length message) ((random ++ p) ++ message) app_id prefix))
      total
  where
    p : List ℕ
    p = pack (length message)

    head : length (random ++ pack (length message)) ≡ 20
    head =
        omega (
          arith,
          length-append random (pack (length message)),
          length-pack (length message),
          sixteen,
        )

    size :
        unpack (take 4 (drop 16 (random ++ (pack (length message) ++ (message ++ app_id)))))
        ≡ length message
    size =
        rw
          (
            drop-at 16 random (pack (length message) ++ (message ++ app_id)) sixteen,
            take-at 4 (pack (length message)) (message ++ app_id) (length-pack (length message)),
          )
          (unpack-pack (length message) short)

    prefix : length ((random ++ pack (length message)) ++ message) ≡ 20 + length message
    prefix = omega (arith, length-append (random ++ pack (length message)) message, head)

    joined :
        ((random ++ pack (length message)) ++ message) ++ app_id
        ≡ random ++ (pack (length message) ++ (message ++ app_id))
    joined =
        append_assoc (random ++ pack (length message)) message app_id
        ∙ append_assoc random (pack (length message)) (message ++ app_id)

    total :
        length (random ++ (pack (length message) ++ (message ++ app_id)))
        ≡ 20 + (length message + length app_id)
    total = omega (
      arith,
      sixteen,
      length-pack (length message),
      length-append random (pack (length message) ++ (message ++ app_id)),
      length-append (pack (length message)) (message ++ app_id),
      length-append message app_id,
    )

-- what the cipher gets of a message for an application
unfoldable pub plaintext : Codecs → List ℕ → String → String → List ℕ
unfolding padded frame
plaintext c random message app_id = padded (frame random (c.utf8 message) (c.utf8 app_id))

compare_same : (s : String) → is_ascii s ≡ true → compare_digest s s ≡ some true
unfolding compare_digest
compare_same s h = rw (compare_digest, h, eq_refl s) refl

-- What the libraries are relied on for, with a message for an application: each decoding undoes its
-- encoding, under every key.
pub record IsFaithful (c : Codecs) (random : List ℕ) (message app_id : String) : Type 0 where
  pub utf8 : c.of_utf8 (c.utf8 message) ≡ some message
  pub utf8_app : c.of_utf8 (c.utf8 app_id) ≡ some app_id
  pub base64 :
      (key : List ℕ)
      → c.of_base64 (c.base64 (c.aes key (plaintext c random message app_id)))
        ≡ some (c.aes key (plaintext c random message app_id))
  pub aes :
      (key : List ℕ)
      → c.of_aes key (c.aes key (plaintext c random message app_id))
        ≡ some (plaintext c random message app_id)

-- A message that is encrypted for an application under a key is read back by that application under the
-- same key, whatever 16 bytes were drawn, if the id of the application is ASCII and the libraries'
-- decodings undo their encodings of the message.
pub decrypt_message-encrypt_message :
    (c : Codecs) (random : List ℕ) (message aes_key app_id encrypted : String)
    → IsFaithful c random message app_id
    → is_ascii app_id ≡ true
    → length random ≡ 16
    → encrypt_message c random message aes_key app_id ≡ some encrypted
    → decrypt_message c encrypted aes_key app_id ≡ some message
unfolding encrypt_message decrypt_message plaintext
decrypt_message-encrypt_message c random message aes_key app_id encrypted f ascii sixteen e =
    elim (Option-cases (key_of c aes_key)) [
      | inl none' ↦ absurd (ground arith)
      | inr (key, keyed) ↦ elim (Bool-cases (leb (2 ^ 32) (length (c.utf8 message)))) [
        | inl long ↦ absurd (ground arith)
        | inr short ↦
            let made : encrypted
                ≡ c.base64 (c.aes key (padded (frame random (c.utf8 message) (c.utf8 app_id)))) =
              ground arith in
            let small : length (c.utf8 message) < 2 ^ 32 = ground arith in
            rw
              (
                made,
                decrypt_message,
                keyed,
                f.base64 key,
                f.aes key,
                unpad-padded (frame random (c.utf8 message) (c.utf8 app_id)),
                unframe-frame random (c.utf8 message) (c.utf8 app_id) sixteen small,
                f.utf8,
                f.utf8_app,
                compare_same app_id ascii,
              )
              refl
      ]
    ]
