-- ===== src/Sahara/Image/Ends.antt =====
-- The handlers that answer from the images end.
use qfenix.Common.{ℕ, arith, Option, none, some, List, ◌==◌, not}
use qfenix.Link.{Link, exited, fail, pure, assert, qdl_write, ◌>>=◌}
use qfenix.Link.Ends.{Ends, Ends-pure, Ends-fault, Ends-bind, Ends-qdl_write, Ends-assert, Ends-if}
use qfenix.Common.Words.{field_at}
use qfenix.Sahara.Image
use qfenix.Sahara.Image.{SaharaImage, length_of, sahara_send_reset}

pub Ends-sahara_send_reset : (l : Link) → Ends sahara_send_reset l
unfolding sahara_send_reset
Ends-sahara_send_reset l =
    Ends-bind (qdl_write Image.reset_packet) _ l (Ends-qdl_write Image.reset_packet l)
      (λ _ _. Ends-pure tt (qdl_write Image.reset_packet l).1)

Ends-write_then :
    {A : Type 0} (bytes : List ℕ) (a : A) (l : Link) → Ends (qdl_write bytes >>= λ _. pure a) l
Ends-write_then bytes a l =
    Ends-bind (qdl_write bytes) _ l (Ends-qdl_write bytes l)
      (λ _ _. Ends-pure a (qdl_write bytes l).1)

pub Ends-sahara_hello : (pkt : List ℕ) (l : Link) → Ends (Image.sahara_hello pkt) l
unfolding Image.sahara_hello
Ends-sahara_hello pkt l =
    Ends-bind (assert (length_of pkt == 0x30)) _ l (Ends-assert _ l)
      λ _ _. Ends-write_then _ tt (assert (length_of pkt == 0x30) l).1

Ends-write_range :
    (bytes : List ℕ) (offset len : ℕ) (l : Link) → Ends (Image.write_range bytes offset len) l
unfolding Image.write_range
Ends-write_range bytes offset len l = Ends-if _ _ _ l (Ends-qdl_write _ l) (Ends-fault l)

Ends-exited : {A : Type 0} (l : Link) → Ends {A = A} (fail exited) l
Ends-exited l = record { ends = λ e. ground arith; uses = omega arith; bytes = omega arith }

Ends-send_range :
    (image : SaharaImage) (bytes : List ℕ) (offset len : ℕ) (l : Link)
    → Ends (Image.send_range image bytes offset len) l
unfolding Image.send_range
Ends-send_range image bytes offset len l = Ends-if _ _ _ l (Ends-pure tt l) (
    Ends-bind (Image.write_range bytes offset len) _ l (Ends-write_range bytes offset len l)
      λ ret _.
        let l' = (Image.write_range bytes offset len l).1 in
        Ends-if _ _ _ l' (Ends-exited l') (Ends-pure tt l'))

Ends-send_from :
    (p : Option (List ℕ)) (image : SaharaImage) (offset len : ℕ) (l : Link)
    → Ends (Image.send_from p image offset len) l
unfolding Image.send_from
Ends-send_from none image offset len l = Ends-sahara_send_reset l
Ends-send_from (some bytes) image offset len l = Ends-send_range image bytes offset len l

pub Ends-answer_read :
    (images : Option (List SaharaImage)) (image_idx offset len : ℕ) (l : Link)
    → Ends (Image.answer_read images image_idx offset len) l
unfolding Image.answer_read Image.send_image
Ends-answer_read none image_idx offset len l =
    Ends-if _ _ _ l (Ends-sahara_send_reset l) (Ends-fault l)
Ends-answer_read (some images) image_idx offset len l =
    Ends-if _ _ _ l (Ends-sahara_send_reset l) (Ends-send_from _ _ offset len l)

pub Ends-sahara_read :
    (pkt : List ℕ) (images : Option (List SaharaImage)) (l : Link)
    → Ends (Image.sahara_read pkt images) l
unfolding Image.sahara_read
Ends-sahara_read pkt images l =
    Ends-bind (assert (length_of pkt == 0x14)) _ l (Ends-assert _ l)
      λ _ _. Ends-answer_read images _ _ _ (assert (length_of pkt == 0x14) l).1

pub Ends-sahara_read64 :
    (pkt : List ℕ) (images : Option (List SaharaImage)) (l : Link)
    → Ends (Image.sahara_read64 pkt images) l
unfolding Image.sahara_read64
Ends-sahara_read64 pkt images l =
    Ends-bind (assert (length_of pkt == 0x20)) _ l (Ends-assert _ l)
      λ _ _. Ends-answer_read images _ _ _ (assert (length_of pkt == 0x20) l).1

pub Ends-sahara_eoi : (pkt : List ℕ) (l : Link) → Ends (Image.sahara_eoi pkt) l
unfolding Image.sahara_eoi
Ends-sahara_eoi pkt l = Ends-bind (assert (length_of pkt == 0x10)) _ l (Ends-assert _ l) λ _ _.
    let l' = (assert (length_of pkt == 0x10) l).1 in
    Ends-if _ _ _ l' (Ends-pure tt l') (Ends-write_then Image.done_packet tt l')

pub Ends-sahara_done : (pkt : List ℕ) (l : Link) → Ends (Image.sahara_done pkt) l
unfolding Image.sahara_done
Ends-sahara_done pkt l =
    Ends-bind (assert (length_of pkt == 0xc)) _ l (Ends-assert _ l)
      λ _ _. Ends-pure (not (field_at 4 pkt 8 == 0)) (assert (length_of pkt == 0xc) l).1

pub Ends-quirk :
    (images : Option (List SaharaImage)) (l : Link)
    → Ends (Image.sahara_has_done_pending_quirk images) l
unfolding Image.sahara_has_done_pending_quirk
Ends-quirk none l = Ends-fault l
Ends-quirk (some images) l = Ends-pure _ l
