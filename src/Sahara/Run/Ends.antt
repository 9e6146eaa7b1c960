-- ===== src/Sahara/Run/Ends.antt =====
-- `sahara_run` ends, whatever the device sends.
use qfenix.Common.{
  ℕ, zero, suc, ◌+◌, ◌-◌, ◌≤◌, ◌<◌, ◌≡◌, ◌≢◌, arith, ap, ◌∙◌, Bool, true, false, some,
}
use qfenix.Common.{
  List, [], ◌++◌, length, take, drop, length-append, length-drop, length-take, ◌==◌, ◌||◌, not,
}
use qfenix.Link.{Link, Exec, ok, stuck, pure, qdl_read, ◌>>=◌, bytes_left}
use qfenix.Link.Ends.{
  Ends, Ends-pure, Ends-bind, Ends-qdl_read, Ends-assert, Ends-choice, Ends-if, Ends-option,
}
use qfenix.Link.Post.{Post, Post-pure, Post-bind, Post-choice, Post-option}
use qfenix.Sahara.Image
use qfenix.Sahara.Image.{SaharaImage, cmd_of, length_of, no_image, sahara_send_reset}
use qfenix.Sahara.Image.Ends.{
  Ends-sahara_send_reset, Ends-sahara_hello, Ends-sahara_read, Ends-sahara_read64, Ends-sahara_eoi,
  Ends-sahara_done, Ends-quirk,
}
use qfenix.Sahara.Dump.Ends.{sahara_debug64-Ends}
use qfenix.Sahara.Run.{
  has_packet, nudge, gather, buf_size, is_usable, Job, dispatch, is_given, run_loop, sahara_run,
  DeviceType, sim, usb, pcie,
}

Ends-nudge : (retries : ℕ) (sent : Bool) (l : Link) → Ends (nudge retries sent) l
unfolding nudge
Ends-nudge retries sent l =
    Ends-if (not sent) _ _ l reset
      (Ends-if (retries == 9 || retries == 5) _ _ l reset (Ends-pure true l))
  where
    reset : Ends (sahara_send_reset >>= λ _. pure true) l
    reset =
        Ends-bind sahara_send_reset _ l (Ends-sahara_send_reset l)
          (λ _ _. Ends-pure true (sahara_send_reset l).1)

Ends-gather :
    (retries : ℕ) (sent : Bool) (buf : List ℕ) (l : Link) → Ends (gather retries sent buf) l
unfolding gather
Ends-gather zero sent buf l = Ends-pure buf l
Ends-gather (suc retries) sent buf l =
    let l' = (qdl_read (buf_size - length buf) l).1 in
    let again =
      Ends-bind (nudge (suc retries) sent) (λ s. gather retries s buf) l'
        (Ends-nudge (suc retries) sent l')
        (λ s _. Ends-gather retries s buf (nudge (suc retries) sent l').1) in
    Ends-choice (has_packet buf) _ _ l (λ _. Ends-pure buf l)
      λ _.
        Ends-bind (qdl_read (buf_size - length buf)) _ l (Ends-qdl_read (buf_size - length buf) l)
          λ n _. Ends-option n _ _ l' again λ bytes _.
            Ends-choice (length bytes == 0) _ _ l' (λ _. again)
              (λ _. Ends-gather retries sent (buf ++ bytes) l')

-- The bytes that were read came out of what could be read.
read_takes :
    (n : ℕ) (l : Link) (bytes : List ℕ)
    → (qdl_read n l).0 ≡ ok (some bytes)
    → length bytes + bytes_left (qdl_read n l).1.incoming ≤ bytes_left l.incoming
unfolding qdl_read bytes_left
read_takes n l bytes h = grind (arith, length-take)

-- What the inner loop has gathered, with what can still be read, is no more than before.
gather-Within :
    (retries : ℕ) (sent : Bool) (buf : List ℕ) (total : ℕ) (l : Link)
    → length buf + bytes_left l.incoming ≤ total
    → Post (gather retries sent buf) l (λ got l'. length got + bytes_left l'.incoming ≤ total)
unfolding gather
gather-Within zero sent buf total l h = Post-pure _ buf l h
gather-Within (suc retries) sent buf total l h =
    let l' = (qdl_read (buf_size - length buf) l).1 in
    let again =
      Post-bind _ (nudge (suc retries) sent) (λ s. gather retries s buf) l'
        (λ s _. gather-Within retries s buf total (nudge (suc retries) sent l').1 (
          omega (
            arith,
            h,
            (Ends-nudge (suc retries) sent l').bytes,
            (Ends-qdl_read (buf_size - length buf) l).bytes,
          ))) in
    Post-choice _ (has_packet buf) _ _ l (λ _. Post-pure _ buf l h)
      λ _. Post-bind _ (qdl_read (buf_size - length buf)) _ l λ n e.
        Post-option _ n _ _ l' again λ bytes g.
          Post-choice _ (length bytes == 0) _ _ l' (λ _. again)
            λ _. gather-Within retries sent (buf ++ bytes) total l' (
              omega (
                arith,
                h,
                length-append buf bytes,
                read_takes (buf_size - length buf) l bytes (e ∙ ap ok g),
              ))

Ends-then : {A B : Type 0} (m : Exec A) (b : B) (l : Link) → Ends m l → Ends (m >>= λ _. pure b) l
Ends-then m b l h = Ends-bind m _ l h (λ _ _. Ends-pure b (m l).1)

Ends-dispatch : (job : Job) (pkt : List ℕ) (l : Link) → Ends (dispatch job pkt) l
unfolding dispatch
Ends-dispatch job pkt l = Ends-if _ _ _ l (Ends-then _ false l (Ends-sahara_hello pkt l)) (
    Ends-if _ _ _ l (Ends-then _ false l (Ends-sahara_read pkt job.images l)) (
      Ends-if _ _ _ l (Ends-then _ false l (Ends-sahara_eoi pkt l)) (
        Ends-if _ _ _ l complete (
          Ends-if _ _ _ l
            (Ends-then _ false l (sahara_debug64-Ends pkt job.ramdump_path job.ramdump_filter l))
            (Ends-if _ _ _ l (Ends-then _ false l (Ends-sahara_read64 pkt job.images l)) (
              Ends-if _ _ _ l (Ends-then _ (is_given job.ramdump_path) l (Ends-assert _ l))
                (Ends-pure false l)))))))
  where
    complete :
        Ends
          (Image.sahara_done pkt >>= λ d.
            Image.sahara_has_done_pending_quirk job.images >>= λ q. pure (q || d))
          l
    complete = Ends-bind (Image.sahara_done pkt) _ l (Ends-sahara_done pkt l) λ d _.
        let l' = (Image.sahara_done pkt l).1 in
        Ends-bind (Image.sahara_has_done_pending_quirk job.images) _ l' (Ends-quirk job.images l')
          λ q _. Ends-pure (q || d) (Image.sahara_has_done_pending_quirk job.images l').1

-- A usable packet is at least eight bytes, all of which are there.
usable_size :
    (buf : List ℕ) → is_usable buf ≡ true → (8 ≤ length_of buf) × (length_of buf ≤ length buf)
unfolding is_usable
usable_size buf h = ground arith

Ends-run_loop :
    (fuel : ℕ) (job : Job) (buf : List ℕ) (l : Link)
    → length buf + bytes_left l.incoming < fuel
    → Ends (run_loop fuel job buf) l
unfolding run_loop
Ends-run_loop zero job buf l h = absurd (omega arith)
Ends-run_loop (suc fuel) job buf l h =
    Ends-bind (gather 15 false buf) _ l (Ends-gather 15 false buf l) λ got e.
      let l' = (gather 15 false buf l).1 in
      Ends-choice (is_usable got) _ _ l'
        (λ usable.
          Ends-bind (dispatch job (take (length_of got) got)) _ l'
            (Ends-dispatch job (take (length_of got) got) l')
            λ done _.
              let l'' = (dispatch job (take (length_of got) got) l').1 in
              Ends-choice done _ _ l'' (λ _. Ends-pure true l'')
                λ _. Ends-run_loop fuel job (drop (length_of got) got) l'' (
                  omega (
                    arith,
                    (gather-Within 15 false buf (length buf + bytes_left l.incoming) l
                          (omega arith)).holds
                        got e,
                    usable_size got usable,
                    length-drop (length_of got) got,
                    (Ends-dispatch job (take (length_of got) got) l').bytes,
                  )))
        (λ _. Ends-pure false l')

-- `sahara_run` ends, whatever the device sends, however its bytes are cut into reads and whatever
-- fails: the rounds that the loop is allowed are never used up.
pub sahara_run-ne-stuck :
    (device : DeviceType) (job : Job) (l : Link) → (sahara_run device job l).0 ≢ stuck
unfolding sahara_run
sahara_run-ne-stuck sim job l = (Ends-pure true l).ends
sahara_run-ne-stuck usb job l =
    (Ends-run_loop (suc (bytes_left l.incoming)) job [] l (omega arith)).ends
sahara_run-ne-stuck pcie job l =
    (Ends-run_loop (suc (bytes_left l.incoming)) job [] l (omega arith)).ends
