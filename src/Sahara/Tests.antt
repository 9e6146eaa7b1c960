-- ===== src/Sahara/Tests.antt =====
-- Tests and instances for sahara.c, at one programmer image of four bytes.
use qfenix.Common.{map}
use qfenix.Common.{
  ℕ, ◌-◌, ◌^◌, ◌≡◌, ◌≢◌, ◌↔◌, refl, arith, true, false, some, none, List, [], ◌∷◌, ◌++◌, ◌%◌,
}
use qfenix.Common.{All, replicate, take, drop}
use qfenix.Common.Words.{to_le, field_at, of_le}
use qfenix.Link.{Link, ok, fault, stuck, assert, qdl_read, qdl_write}
use qfenix.Sahara.Image.{
  SaharaImage, no_image, cmd_of, length_of, sahara_read, sahara_read64, sahara_done,
}
use qfenix.Sahara.Image.{sahara_has_done_pending_quirk, count_images}
use qfenix.Sahara.Image.Range.{
  IsImage, reply_to, sahara_read_exact, sahara_read64_exact, sahara_read64_wraps,
}
use qfenix.Sahara.Glob.{pattern_match, sahara_debug64_filter}
use qfenix.Sahara.Glob.Laws.{Matches, pattern_match_iff}
use qfenix.Sahara.Glob.Filter.{Exists, join, sahara_debug64_filter_iff}
use qfenix.Common.{zero, suc, All-append}
use qfenix.Link.{bytes_left}
use qfenix.Sahara.Image.{answer_read, send_image, send_from, send_range, write_range, short_write}
use qfenix.Sahara.Run.{Job, gather, has_packet, dispatch, run_loop, sahara_run, is_usable, usb}
use qfenix.Sahara.Run.Ends.{sahara_run-ne-stuck}
use qfenix.Sahara.Run.Packets
use qfenix.Sahara.Run.Packets.{gather-joined, dispatch_done}

abbrev programmer : SaharaImage
programmer = record { ptr = some (10 ∷ 20 ∷ 30 ∷ 40 ∷ []); len = 4 }

-- The programmer has number 13.
abbrev table : List SaharaImage
table = replicate 13 no_image ++ programmer ∷ replicate 50 no_image

abbrev idle : Link
idle = record { incoming = []; accepted = []; granted = []; stored = []; sent = []; files = [] }

abbrev read_packet : List ℕ
read_packet = 3 ∷ 0 ∷ 0 ∷ 0 ∷ 0x14 ∷ 0 ∷ 0 ∷ 0 ∷ 13 ∷ 0 ∷ 0 ∷ 0 ∷ 1 ∷ 0 ∷ 0 ∷ 0 ∷ 2 ∷ 0 ∷ 0 ∷ 0 ∷ []

abbrev done_response : List ℕ
done_response = 6 ∷ 0 ∷ 0 ∷ 0 ∷ 0xc ∷ 0 ∷ 0 ∷ 0 ∷ 1 ∷ 0 ∷ 0 ∷ 0 ∷ []

abbrev job : Job
job = record { images = some table; ramdump_path = none; ramdump_filter = none }

-- The read request in two pieces, then the DONE response.
abbrev session : Link
session = record idle {
  incoming = some (take 7 read_packet) ∷ some (drop 7 read_packet ++ done_response) ∷ [];
}

programmer-IsImage : IsImage programmer
programmer-IsImage bytes e = ground arith

no_image-IsImage : IsImage no_image
no_image-IsImage bytes e = absurd (ground arith)

no_images-IsImage : (n : ℕ) → All IsImage (replicate n no_image)
no_images-IsImage zero = tt
no_images-IsImage (suc n) = (no_image-IsImage, no_images-IsImage n)

table-IsImage : All IsImage table
table-IsImage =
    All-append IsImage (replicate 13 no_image) (programmer ∷ replicate 50 no_image)
      (no_images-IsImage 13) (programmer-IsImage, no_images-IsImage 50)

serves : (sahara_run usb job session).0 ≡ ok true
unfolding sahara_run run_loop gather has_packet is_usable dispatch sahara_read sahara_done assert
    qdl_read qdl_write length_of cmd_of answer_read send_range bytes_left
    sahara_has_done_pending_quirk count_images
serves = refl

-- The two bytes that were asked for are the one message that is sent.
serves_bytes : (sahara_run usb job session).1.sent ≡ (20 ∷ 30 ∷ []) ∷ []
unfolding sahara_run run_loop gather has_packet is_usable dispatch sahara_read sahara_done assert
    qdl_read qdl_write length_of cmd_of answer_read send_image send_from send_range write_range
    short_write bytes_left sahara_has_done_pending_quirk count_images
serves_bytes = refl

sahara_run-ne-stuck_example : (sahara_run usb job session).0 ≢ stuck
sahara_run-ne-stuck_example = sahara_run-ne-stuck usb job session

read_length : length_of read_packet ≡ 0x14
unfolding length_of
read_length = refl

sahara_read_exact_example :
    ((sahara_read read_packet (some table) idle).1.sent ≡ [] ++ reply_to table 13 1 2)
    × ((sahara_read read_packet (some table) idle).0 ≢ fault)
unfolding field_at of_le
sahara_read_exact_example =
    sahara_read_exact read_packet table idle (omega arith) table-IsImage read_length

abbrev read64_packet : ℕ → ℕ → List ℕ
read64_packet offset len =
    to_le 4 0x12 ++ to_le 4 0x20 ++ to_le 8 13 ++ to_le 8 offset ++ to_le 8 len

abbrev wide_packet : List ℕ
wide_packet = read64_packet 1 2

abbrev wrapping_packet : List ℕ
wrapping_packet = read64_packet 1 (2 ^ 64 - 1)

wide_length : length_of wide_packet ≡ 0x20
unfolding length_of to_le
wide_length = refl

wide_offset : field_at 8 wide_packet 16 ≡ 1
unfolding field_at to_le
wide_offset = refl

wide_len : field_at 8 wide_packet 24 ≡ 2
unfolding field_at to_le
wide_len = refl

sahara_read64_exact_example :
    ((sahara_read64 wide_packet (some table) idle).1.sent
      ≡ []
        ++ reply_to table
            (field_at 8 wide_packet 8 % 2 ^ 32)
            (field_at 8 wide_packet 16)
            (field_at 8 wide_packet 24))
    × ((sahara_read64 wide_packet (some table) idle).0 ≢ fault)
sahara_read64_exact_example =
    sahara_read64_exact wide_packet table idle table-IsImage wide_length
      (omega (arith, wide_offset, wide_len))

wrapping_length : length_of wrapping_packet ≡ 0x20
unfolding length_of to_le
wrapping_length = refl

wrapping_image : field_at 8 wrapping_packet 8 % 2 ^ 32 ≡ 13
unfolding field_at to_le
wrapping_image = refl

wrapping_offset : field_at 8 wrapping_packet 16 ≡ 1
unfolding field_at to_le
wrapping_offset = refl

wrapping_len : field_at 8 wrapping_packet 24 ≡ 2 ^ 64 - 1
unfolding field_at to_le
wrapping_len = refl

sahara_read64_wraps_example : (sahara_read64 wrapping_packet (some table) idle).0 ≡ fault
sahara_read64_wraps_example =
    sahara_read64_wraps wrapping_packet (10 ∷ 20 ∷ 30 ∷ 40 ∷ []) table idle wrapping_length
      (omega (arith, wrapping_image)) (rw wrapping_image) (rw wrapping_image) (omega arith)
      (omega (arith, wrapping_offset)) (omega (arith, wrapping_offset, wrapping_len))
      (omega (arith, wrapping_offset, wrapping_len))

-- `*.bin` and a name that it stands for.
abbrev glob : List ℕ
glob = b'*' ∷ b'.' ∷ b'b' ∷ []

abbrev name : List ℕ
name = b'o' ∷ b'c' ∷ b'.' ∷ b'b' ∷ []

pattern_match_iff_example : (pattern_match glob name ≡ true) ↔ Matches glob name
pattern_match_iff_example = pattern_match_iff glob name

matches_name : pattern_match glob name ≡ true
unfolding pattern_match
matches_name = refl

sahara_debug64_filter_iff_example :
    ((sahara_debug64_filter name (some (join (glob ∷ name ∷ []))) ≡ false)
      ↔ Exists (λ g. Matches g name) (glob ∷ name ∷ []))
    × (sahara_debug64_filter name none ≡ false)
sahara_debug64_filter_iff_example =
    sahara_debug64_filter_iff (glob ∷ name ∷ []) name
      ((nonempty, omega arith), ((nonempty', omega arith), tt))
  where
    nonempty : glob ≢ []
    nonempty e = absurd (ground arith)

    nonempty' : name ≢ []
    nonempty' e = absurd (ground arith)

abbrev pieces : List (List ℕ)
pieces = take 7 read_packet ∷ drop 7 read_packet ∷ []

abbrev waiting : Link
waiting = record idle { incoming = map some pieces ++ none ∷ [] }

pieces-Arrives : Packets.Arrives [] pieces
unfolding has_packet length_of
pieces-Arrives = (refl, omega arith, omega arith, (refl, omega arith, omega arith, refl))

done_ends : (dispatch job done_response idle).0 ≡ ok true
unfolding dispatch cmd_of length_of sahara_done assert sahara_has_done_pending_quirk count_images
done_ends = refl
