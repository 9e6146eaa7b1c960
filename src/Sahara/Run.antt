-- ===== src/Sahara/Run.antt =====
-- `sahara_run`: packets are put together from what the reads bring, and each is handed to the
-- function that its command names. What the loop keeps only for its messages is left out.
pub mod Ends
pub mod Packets
use qfenix.Common.{
  ℕ, zero, suc, ◌+◌, ◌-◌, Bool, true, false, Option, none, some, List, [], ◌∷◌, ◌++◌,
}
use qfenix.Common.{◌==◌, ltb, leb, ◌||◌, ◌&&◌, not, if◌then◌else◌, length, take, drop}
use qfenix.Link.{
  bytes_left, Link, Outcome, Exec, ok, stuck, pure, fail, assert, qdl_read, ◌>>=◌, ◌>>◌, continue,
}
use qfenix.Sahara.Image.{
  SaharaImage, cmd_of, length_of, sahara_send_reset, sahara_hello, sahara_read, sahara_read64,
}
use qfenix.Sahara.Image.{sahara_eoi, sahara_done, sahara_has_done_pending_quirk}
use qfenix.Sahara.Dump.{sahara_debug64}

abbrev pub buf_size : ℕ
buf_size = 4096

-- `buf_len >= 8` and `buf_len >= pkt->length`: the test that leaves the inner loop.
unfoldable pub has_packet : List ℕ → Bool
has_packet buf = not (ltb (length buf) 8) && leb (length_of buf) (length buf)

-- The reset that follows a failed read, with `retries` at its value in the round.
unfoldable pub nudge : ℕ → Bool → Exec Bool
nudge retries sent_reset =
    if not sent_reset
    then (do sahara_send_reset; pure true)
    else if retries == 9 || retries == 5
    then (do sahara_send_reset; pure true)
    else pure true

-- The inner loop, with `retries` rounds left; the result is the content of `buf`.
unfoldable pub gather : ℕ → Bool → List ℕ → Exec (List ℕ)
gather zero sent_reset buf = pure buf
gather (suc retries) sent_reset buf = elim (has_packet buf) [
  | true ↦ pure buf
  | false ↦ do
    n ← qdl_read (buf_size - length buf)
    elim n [
      | none ↦ do sent ← nudge (suc retries) sent_reset; gather retries sent buf
      | some bytes ↦ elim (length bytes == 0) [
        | true ↦ do sent ← nudge (suc retries) sent_reset; gather retries sent buf
        | false ↦ gather retries sent_reset (buf ++ bytes)
      ]
    ]
]

-- The arguments of `sahara_run` that the handlers need.
pub record Job : Type 0 where
  pub images : Option (List SaharaImage)
  pub ramdump_path : Option (List ℕ)
  pub ramdump_filter : Option (List ℕ)

unfoldable pub is_given : Option (List ℕ) → Bool
is_given none = false
is_given (some path) = true

-- The answer to a packet; the result is `done`.
unfoldable pub dispatch : Job → List ℕ → Exec Bool
dispatch job pkt =
    if cmd_of pkt == 0x1
    then (do sahara_hello pkt; pure false)
    else if cmd_of pkt == 0x3
    then (do sahara_read pkt job.images; pure false)
    else if cmd_of pkt == 0x4
    then (do sahara_eoi pkt; pure false)
    else if cmd_of pkt == 0x6
    then (do
      done ← sahara_done pkt
      quirk ← sahara_has_done_pending_quirk job.images
      pure (quirk || done))
    else if cmd_of pkt == 0x10
    then (do sahara_debug64 pkt job.ramdump_path job.ramdump_filter; pure false)
    else if cmd_of pkt == 0x12
    then (do sahara_read64 pkt job.images; pure false)
    else if cmd_of pkt == 0x8
    then (do assert (length_of pkt == 0x8); pure (is_given job.ramdump_path))
    else pure false

-- Whether the loop goes on with what is in `buf`: a whole packet of a length that is allowed.
unfoldable pub is_usable : List ℕ → Bool
is_usable buf =
    not (ltb (length buf) 8)
    && not (ltb (length_of buf) 8 || ltb buf_size (length_of buf))
    && not (ltb (length buf) (length_of buf))

-- The outer loop; the result is `done`.
unfoldable pub run_loop : ℕ → Job → List ℕ → Exec Bool
run_loop zero job buf = fail stuck
run_loop (suc fuel) job buf = do
  got ← gather 15 false buf
  elim (is_usable got) [
    | false ↦ pure false
    | true ↦ do
      done ← dispatch job (take (length_of got) got)
      elim done [ true ↦ pure true | false ↦ run_loop fuel job (drop (length_of got) got) ]
  ]

pub data DeviceType : Type 0 where
  usb sim pcie : DeviceType

-- The result is false for -1. Each round takes at least eight bytes out of the buffer.
unfoldable pub sahara_run : DeviceType → Job → Exec Bool
sahara_run sim job l = pure true l
sahara_run _ job l = run_loop (suc (bytes_left l.incoming)) job [] l
