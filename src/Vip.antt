-- ===== src/Vip.antt =====
-- vip.c: validated image programming. This module has the transfer of the digest tables to the
-- device; the children have its laws.
pub mod Steps
pub mod Schedule
mod Tables
mod Tests
use qfenix.Common.{
  ℕ, zero, suc, ◌+◌, ◌-◌, Bool, true, false, Option, none, some, List, [], ◌∷◌, ◌++◌,
}
use qfenix.Common.{◌==◌, ltb, leb, not, if◌then◌else◌, length, get_or, take}
use qfenix.Link.{Link, Outcome, Exec, ok, pure, acquire, qdl_write, ◌>>=◌, ◌>>◌, continue}

abbrev pub max_digests_per_signed_table : ℕ
max_digests_per_signed_table = 54 - 1

abbrev pub max_digests_per_chained_table : ℕ
max_digests_per_chained_table = 256 - 1

abbrev pub max_chained_files : ℕ
max_chained_files = 32

pub data VipState : Type 0 where
  disabled init send_next_table send_data : VipState

-- `struct vip_transfer_data`, with the content of each table in place of its descriptor.
pub record VipTransfer : Type 0 where
  pub state : VipState
  pub signed_table : List ℕ
  pub chained : List (List ℕ)
  pub chained_cur : ℕ
  pub frames_sent : ℕ
  pub frames_left : ℕ
  pub fh_parse_status : Bool

-- The result is false for -1. The calls of `fstat`, `malloc` and `read` may fail, and the write.
unfoldable pub vip_transfer_send_raw : List ℕ → Exec Bool
vip_transfer_send_raw table = do
  stat ← acquire
  if not stat then pure false else do
    buf ← acquire
    if not buf then pure false else do
      got ← acquire
      if not got
          then pure false
          else do n ← qdl_write table; elim n [ none ↦ pure false | some _ ↦ pure true ]

-- What every call does last.
unfoldable pub count_frame : VipTransfer → VipTransfer
count_frame v =
    if leb v.frames_left (v.frames_sent + 1)
    then record v { frames_sent = v.frames_sent + 1; state = send_next_table }
    else record v { frames_sent = v.frames_sent + 1 }

unfoldable pub after_signed : VipTransfer → VipTransfer
after_signed v = record v {
  state = send_data;
  frames_sent = 0;
  frames_left = max_digests_per_signed_table;
  fh_parse_status = true;
}

unfoldable pub after_chained : VipTransfer → VipTransfer
after_chained v = record v {
  state = send_data;
  frames_sent = 0;
  frames_left = max_digests_per_chained_table;
  fh_parse_status = true;
  chained_cur = v.chained_cur + 1;
}

-- The work of a call in a given state; the result is `none` for -1, and else the new data.
unfoldable pub handle_in : VipState → VipTransfer → Exec (Option VipTransfer)
handle_in disabled v = pure (some v)
handle_in init v = do
  sent ← vip_transfer_send_raw v.signed_table
  if sent then pure (some (count_frame (after_signed v))) else pure none
handle_in send_next_table v = if leb (length v.chained) v.chained_cur then pure none else do
  sent ← vip_transfer_send_raw (get_or v.chained v.chained_cur [])
  if sent then pure (some (count_frame (after_chained v))) else pure none
handle_in send_data v = pure (some (count_frame v))

unfoldable pub vip_transfer_handle_tables : VipTransfer → Exec (Option VipTransfer)
vip_transfer_handle_tables v = handle_in v.state v

unfoldable pub vip_transfer_status_check_needed : VipTransfer → Bool
vip_transfer_status_check_needed v = v.fh_parse_status

unfoldable pub vip_transfer_clear_status : VipTransfer → VipTransfer
vip_transfer_clear_status v = record v { fh_parse_status = false }
