-- ===== src/Sahara/Image.antt =====
-- The packets of sahara.c and the handlers that answer one packet from the programmer images.
-- A packet is the list of its bytes; its fields are little-endian.
pub mod Range
pub mod Ends
use qfenix.Common.{
  ℕ, zero, suc, ◌+◌, ◌%◌, ◌^◌, Bool, true, false, Option, none, some, List, [], ◌∷◌, ◌++◌,
}
use qfenix.Common.{
  ◌==◌, ltb, leb, ◌||◌, ◌&&◌, not, if◌then◌else◌, length, take, drop, get_or, replicate,
}
use qfenix.Common.Words.{to_le, field_at}
use qfenix.Link.{
  Link, Outcome, Exec, ok, exited, fault, pure, fail, assert, qdl_write, ◌>>=◌, ◌>>◌, continue,
}

abbrev pub mapping_sz : ℕ
mapping_sz = 64

abbrev pub ehostdl_img : ℕ
ehostdl_img = 13

-- `ptr` is the memory that a pointer other than NULL points to.
pub record SaharaImage : Type 0 where
  pub ptr : Option (List ℕ)
  pub len : ℕ

abbrev pub no_image : SaharaImage
no_image = record { ptr = none; len = 0 }

-- `pkt->cmd` and `pkt->length`.
unfoldable pub cmd_of : List ℕ → ℕ
unfolding field_at
cmd_of pkt = field_at 4 pkt 0

unfoldable pub length_of : List ℕ → ℕ
unfolding field_at
length_of pkt = field_at 4 pkt 4

unfoldable pub reset_packet : List ℕ
unfolding to_le
reset_packet = to_le 4 0x7 ++ to_le 4 0x8

unfoldable pub sahara_send_reset : Exec (Unit {0})
sahara_send_reset = do qdl_write reset_packet; pure tt

unfoldable pub hello_response : ℕ → List ℕ
hello_response mode =
    to_le 4 0x2
    ++ to_le 4 0x30
    ++ to_le 4 2
    ++ to_le 4 1
    ++ to_le 4 0
    ++ to_le 4 mode
    ++ replicate 24 0

unfoldable pub sahara_hello : List ℕ → Exec (Unit {0})
sahara_hello pkt = do
  assert (length_of pkt == 0x30)
  qdl_write (hello_response (field_at 4 pkt 20))
  pure tt

-- The write of `len` bytes from an image, whatever the image holds.
unfoldable pub write_range : List ℕ → ℕ → ℕ → Exec (Option ℕ)
write_range bytes offset len =
    if leb (offset + len) (length bytes)
    then qdl_write (take len (drop offset bytes))
    else fail fault

-- `ret < 0 || (size_t)ret != len`
unfoldable pub short_write : ℕ → Option ℕ → Bool
short_write len none = true
short_write len (some n) = not (n == len)

-- The part that `sahara_read` and `sahara_read64` share from the test of the range on.
unfoldable pub send_range : SaharaImage → List ℕ → ℕ → ℕ → Exec (Unit {0})
unfolding write_range short_write
send_range image bytes offset len =
    if ltb image.len offset || ltb image.len ((offset + len) % 2 ^ 64)
    then pure tt
    else do ret ← write_range bytes offset len; if short_write len ret then fail exited else pure tt

-- The test of `images[image_idx].ptr`.
unfoldable pub send_from : Option (List ℕ) → SaharaImage → ℕ → ℕ → Exec (Unit {0})
send_from none image offset len = sahara_send_reset
send_from (some bytes) image offset len = send_range image bytes offset len

unfoldable pub send_image : SaharaImage → ℕ → ℕ → Exec (Unit {0})
unfolding send_from
send_image image offset len = send_from image.ptr image offset len

-- The array of images has `mapping_sz` entries; no array (NULL) is `none`.
unfoldable pub answer_read : Option (List SaharaImage) → ℕ → ℕ → ℕ → Exec (Unit {0})
unfolding send_image
answer_read none image_idx offset len =
    if leb mapping_sz image_idx then sahara_send_reset else fail fault
answer_read (some images) image_idx offset len =
    if leb mapping_sz image_idx
    then sahara_send_reset
    else send_image (get_or images image_idx no_image) offset len

unfoldable pub sahara_read : List ℕ → Option (List SaharaImage) → Exec (Unit {0})
sahara_read pkt images = do
  assert (length_of pkt == 0x14)
  answer_read images (field_at 4 pkt 8) (field_at 4 pkt 12) (field_at 4 pkt 16)

-- The image number is a 64-bit field that is cut to `unsigned int`.
unfoldable pub sahara_read64 : List ℕ → Option (List SaharaImage) → Exec (Unit {0})
sahara_read64 pkt images = do
  assert (length_of pkt == 0x20)
  answer_read images (field_at 8 pkt 8 % 2 ^ 32) (field_at 8 pkt 16) (field_at 8 pkt 24)

unfoldable pub done_packet : List ℕ
done_packet = to_le 4 0x5 ++ to_le 4 0x8

unfoldable pub sahara_eoi : List ℕ → Exec (Unit {0})
sahara_eoi pkt = do
  assert (length_of pkt == 0x10)
  if not (field_at 4 pkt 12 == 0) then pure tt else do qdl_write done_packet; pure tt

-- The status as a truth value: whether the device is complete.
unfoldable pub sahara_done : List ℕ → Exec Bool
sahara_done pkt = do assert (length_of pkt == 0xc); pure (not (field_at 4 pkt 8 == 0))

unfoldable pub has_ptr : SaharaImage → Bool
has_ptr image = elim image.ptr [ none ↦ false | some _ ↦ true ]

unfoldable pub count_images : List SaharaImage → ℕ
unfolding has_ptr
count_images [] = 0
count_images (image ∷ rest) = (if has_ptr image then 1 else 0) + count_images rest

unfoldable pub sahara_has_done_pending_quirk : Option (List SaharaImage) → Exec Bool
sahara_has_done_pending_quirk none = fail fault
sahara_has_done_pending_quirk (some images) =
    pure
      (count_images (take mapping_sz images) == 1 && has_ptr (get_or images ehostdl_img no_image))
