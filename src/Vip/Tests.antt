-- ===== src/Vip/Tests.antt =====
-- Tests and instances for vip.c, with tables of one byte.
use qfenix.Common.{ℕ, zero, suc, ◌<◌, ◌+◌, ◌≡◌, ◌≢◌, refl, arith, false, none, [], ◌∷◌, ◌++◌}
use qfenix.Link.{Link, ok}
use qfenix.Vip.{VipTransfer, init}
use qfenix.Vip.Steps.{frames, tables_sent}
use qfenix.Vip.Schedule.{vip_transfer_handle_tables-sent}
use qfenix.Vip.Tables.{Opened, descriptor, no_entry}

abbrev idle : Link
idle = record { incoming = []; accepted = []; granted = []; stored = []; sent = []; files = [] }

-- The signed table is 7 and the only chained one is 8.
abbrev start : VipTransfer
start = record {
  state = init;
  signed_table = 7 ∷ [];
  chained = (8 ∷ []) ∷ [];
  chained_cur = 0;
  frames_sent = 0;
  frames_left = 0;
  fh_parse_status = false;
}

tables_sent_60 : tables_sent 60 start ≡ (7 ∷ []) ∷ (8 ∷ []) ∷ []
unfolding tables_sent
tables_sent_60 = refl

vip_transfer_handle_tables-sent_example :
    ((frames 60 start idle).0 ≢ ok none)
    × ((frames 60 start idle).1 ≡ record idle { sent = idle.sent ++ tables_sent 60 start })
vip_transfer_handle_tables-sent_example =
    vip_transfer_handle_tables-sent 60 start idle (refl, refl) refl refl (omega arith)

-- Two tables, with descriptors 4 and 5.
abbrev two_files : ℕ → Opened
two_files zero = descriptor 4
two_files (suc zero) = descriptor 5
two_files (suc (suc _)) = no_entry

two_files_open : (j : ℕ) → j < 2 → two_files j ≡ descriptor (j + 4)
two_files_open zero h = refl
two_files_open (suc zero) h = refl
two_files_open (suc (suc j)) h = absurd (omega arith)
