-- ===== src/Sahara/Image/Range.antt =====
-- What the device can obtain from the images by `sahara_read` and `sahara_read64`.
use mathlib.Core.List.{append-nil}
use qfenix.Common.{ℕ, zero, suc, ◌+◌, ◌%◌, ◌^◌, ◌≤◌, ◌<◌, ◌≡◌, ◌≢◌, refl, ap, ◌∙◌, arith}
use qfenix.Common.{Option, none, some, List, [], ◌∷◌, ◌++◌, leb, if◌then◌else◌}
use qfenix.Common.{length, take, drop, get_or, All, IsBytes, Bool-cases, inl, inr}
use qfenix.Common.Words.{field_at, field_at-lt}
use qfenix.Common.{ge→leb-false}
use qfenix.Link.{Link, Exec, fault, assert, qdl_write}
use qfenix.Sahara.Image.{
  SaharaImage, no_image, mapping_sz, reset_packet, length_of, sahara_send_reset,
}
use qfenix.Sahara.Image.{send_range, send_from, send_image, answer_read, sahara_read, sahara_read64}

-- The memory of an image has the length that the image states.
abbrev pub IsImage : SaharaImage → Type 0
IsImage image = (bytes : List ℕ) → image.ptr ≡ some bytes → length bytes ≡ image.len

-- What a request for `len` bytes from `offset` on is to be answered with.
reply_from : Option (List ℕ) → ℕ → ℕ → List (List ℕ)
reply_from none offset len = reset_packet ∷ []
reply_from (some bytes) offset len =
    if leb (offset + len) (length bytes) then take len (drop offset bytes) ∷ [] else []

pub reply_to : List SaharaImage → ℕ → ℕ → ℕ → List (List ℕ)
reply_to images image_idx offset len =
    if leb mapping_sz image_idx
    then reset_packet ∷ []
    else reply_from (get_or images image_idx no_image).ptr offset len

-- A step that sends just the given messages and reads nothing outside an object.
abbrev pub Answers : {A : Type 0} → Exec A → Link → List (List ℕ) → Type 0
Answers m l messages = ((m l).1.sent ≡ l.sent ++ messages) × ((m l).0 ≢ fault)

sent-qdl_write : (l : Link) (bytes : List ℕ) → (qdl_write bytes l).1.sent ≡ l.sent ++ bytes ∷ []
unfolding qdl_write
sent-qdl_write l bytes = ground arith

reset-Answers : (l : Link) → Answers sahara_send_reset l (reset_packet ∷ [])
unfolding sahara_send_reset qdl_write
reset-Answers l = ground arith

send_range-Answers :
    (image : SaharaImage) (bytes : List ℕ) (offset len : ℕ) (l : Link)
    → length bytes ≡ image.len
    → offset + len < 2 ^ 64
    → Answers
        (send_range image bytes offset len)
        l
        (if leb (offset + len) (length bytes) then take len (drop offset bytes) ∷ [] else [])
unfolding send_range qdl_write
send_range-Answers image bytes offset len l h small = ground (arith, append-nil l.sent)

send_from-Answers :
    (p : Option (List ℕ)) (image : SaharaImage) (offset len : ℕ) (l : Link)
    → ((bytes : List ℕ) → p ≡ some bytes → length bytes ≡ image.len)
    → offset + len < 2 ^ 64
    → Answers (send_from p image offset len) l (reply_from p offset len)
unfolding send_from reply_from
send_from-Answers none image offset len l h small = reset-Answers l
send_from-Answers (some bytes) image offset len l h small =
    send_range-Answers image bytes offset len l (h bytes refl) small

send_image-Answers :
    (image : SaharaImage) (offset len : ℕ) (l : Link)
    → IsImage image
    → offset + len < 2 ^ 64
    → Answers (send_image image offset len) l (reply_from image.ptr offset len)
unfolding send_image
send_image-Answers image offset len l h small =
    send_from-Answers image.ptr image offset len l h small

no_image-IsImage : IsImage no_image
no_image-IsImage bytes e = absurd (ground arith)

get_or-IsImage :
    (images : List SaharaImage) (i : ℕ) → All IsImage images → IsImage (get_or images i no_image)
get_or-IsImage [] i h = no_image-IsImage
get_or-IsImage (image ∷ rest) zero h = h.0
get_or-IsImage (image ∷ rest) (suc i) h = get_or-IsImage rest i h.1

answer_read-Answers :
    (images : List SaharaImage) (image_idx offset len : ℕ) (l : Link)
    → All IsImage images
    → offset + len < 2 ^ 64
    → Answers
        (answer_read (some images) image_idx offset len)
        l
        (reply_to images image_idx offset len)
unfolding answer_read reply_to
answer_read-Answers images image_idx offset len l h small =
    elim (Bool-cases (leb mapping_sz image_idx)) [
      | inl e ↦ rw e (reset-Answers l)
      | inr e ↦ rw e (
          send_image-Answers (get_or images image_idx no_image) offset len l
            (get_or-IsImage images image_idx h) small)
    ]

-- A 32-bit read request of the right length is answered with a reset when the image is unknown, with
-- exactly the bytes asked for when they lie in the image, and else with nothing; no byte outside
-- the image is read, whatever the request.
pub sahara_read_exact :
    (pkt : List ℕ) (images : List SaharaImage) (l : Link)
    → IsBytes pkt
    → All IsImage images
    → length_of pkt ≡ 0x14
    → ((sahara_read pkt (some images) l).1.sent
        ≡ l.sent ++ reply_to images (field_at 4 pkt 8) (field_at 4 pkt 12) (field_at 4 pkt 16))
      × ((sahara_read pkt (some images) l).0 ≢ fault)
unfolding sahara_read assert
sahara_read_exact pkt images l hb hi e = rw e (
    answer_read-Answers images (field_at 4 pkt 8) (field_at 4 pkt 12) (field_at 4 pkt 16) l hi
      (omega (arith, field_at-lt 4 pkt 12 hb, field_at-lt 4 pkt 16 hb)))

-- A 64-bit read request of the right length whose range does not wrap around 2 ^ 64 is answered
-- with a reset when the image is unknown, with exactly the bytes asked for when they lie in the
-- image, and else with nothing; no byte outside the image is read.
pub sahara_read64_exact :
    (pkt : List ℕ) (images : List SaharaImage) (l : Link)
    → All IsImage images
    → length_of pkt ≡ 0x20
    → field_at 8 pkt 16 + field_at 8 pkt 24 < 2 ^ 64
    → ((sahara_read64 pkt (some images) l).1.sent
        ≡ l.sent
          ++ reply_to images (field_at 8 pkt 8 % 2 ^ 32) (field_at 8 pkt 16) (field_at 8 pkt 24))
      × ((sahara_read64 pkt (some images) l).0 ≢ fault)
unfolding sahara_read64 assert
sahara_read64_exact pkt images l hi e small = rw e (
    answer_read-Answers images (field_at 8 pkt 8 % 2 ^ 32) (field_at 8 pkt 16) (field_at 8 pkt 24) l
      hi small)

send_range_wraps :
    (image : SaharaImage) (bytes : List ℕ) (offset len : ℕ) (l : Link)
    → image.len ≡ length bytes
    → length bytes < 2 ^ 64
    → offset ≤ length bytes
    → 2 ^ 64 ≤ offset + len
    → offset + len ≤ 2 ^ 64 + length bytes
    → (send_range image bytes offset len l).0 ≡ fault
unfolding send_range
send_range_wraps image bytes offset len l h small start wraps end = ground arith

-- The test of the range lets through a request whose end wraps around 2 ^ 64 to a place in the
-- image: from an offset in the image, a length that reaches past 2 ^ 64 by at most the image's
-- length makes `sahara_read64` read outside the image.
pub sahara_read64_wraps :
    (pkt bytes : List ℕ) (images : List SaharaImage) (l : Link)
    → length_of pkt ≡ 0x20
    → field_at 8 pkt 8 % 2 ^ 32 < mapping_sz
    → (get_or images (field_at 8 pkt 8 % 2 ^ 32) no_image).ptr ≡ some bytes
    → (get_or images (field_at 8 pkt 8 % 2 ^ 32) no_image).len ≡ length bytes
    → length bytes < 2 ^ 64
    → field_at 8 pkt 16 ≤ length bytes
    → 2 ^ 64 ≤ field_at 8 pkt 16 + field_at 8 pkt 24
    → field_at 8 pkt 16 + field_at 8 pkt 24 ≤ 2 ^ 64 + length bytes
    → (sahara_read64 pkt (some images) l).0 ≡ fault
unfolding sahara_read64 assert answer_read send_image
sahara_read64_wraps pkt bytes images l e idx ptr len small start wraps end = rw e (
    rw (ge→leb-false mapping_sz (field_at 8 pkt 8 % 2 ^ 32) idx) (
      ap
        (λ (p : Option (List ℕ)).
          (send_from p (get_or images (field_at 8 pkt 8 % 2 ^ 32) no_image) (field_at 8 pkt 16)
            (field_at 8 pkt 24) l).0)
        ptr
      ∙ (send_range_wraps (get_or images (field_at 8 pkt 8 % 2 ^ 32) no_image) bytes
          (field_at 8 pkt 16) (field_at 8 pkt 24) l len small start wraps end)))
