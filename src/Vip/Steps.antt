-- ===== src/Vip/Steps.antt =====
-- vip.c: what one call of vip_transfer_handle_tables does to the data when nothing fails.
use mathlib.Core.List.{append-nil}
use qfenix.Common.{ℕ, zero, suc, ◌+◌, ◌-◌, ◌*◌, ◌/◌, ◌≤◌, ◌<◌, ◌≡◌, refl, arith, true}
use qfenix.Common.{
  Option, none, some, List, [], ◌∷◌, ◌++◌, length, get_or, take, leb, if◌then◌else◌,
}
use qfenix.Link.{Link, Exec, ok, pure, acquire, qdl_write, ◌>>=◌}
use qfenix.Vip.{
  VipState, VipTransfer, disabled, init, send_next_table, send_data, vip_transfer_send_raw,
  count_frame,
}
use qfenix.Vip.{after_signed, after_chained, handle_in, vip_transfer_handle_tables}

-- `n` frames in a row, each announced by a call of `vip_transfer_handle_tables`; `none` when a call
-- returned an error.
unfoldable pub frames : ℕ → VipTransfer → Exec (Option VipTransfer)
frames zero v = pure (some v)
frames (suc n) v = do
  before ← frames n v
  elim before [ none ↦ pure none | some v' ↦ vip_transfer_handle_tables v' ]

-- A link on which nothing fails.
abbrev pub IsFaultless : Link → Type 0
IsFaultless l = (l.accepted ≡ []) × (l.granted ≡ [])

pub send_raw_sends :
    (table : List ℕ) (l : Link)
    → IsFaultless l
    → vip_transfer_send_raw table l ≡ (ok true, record l { sent = l.sent ++ table ∷ [] })
unfolding vip_transfer_send_raw acquire qdl_write
send_raw_sends table l h = ground arith

-- The chained tables that `n` frames need: the signed table is good for 53 frames, a chained one
-- for 255.
abbrev pub tables_for : ℕ → ℕ
tables_for n = (n - 53 + 254) / 255

-- The data after `n` frames.
pub record IsAfter (n : ℕ) (start v : VipTransfer) : Type 0 where
  pub same_signed : v.signed_table ≡ start.signed_table
  pub same_chained : v.chained ≡ start.chained
  pub cur : v.chained_cur ≡ tables_for n
  pub fresh : n ≡ 0 → v.state ≡ init
  pub left : 0 < n → v.frames_left ≡ (if leb n 53 then 53 else 255)
  pub sent : 0 < n → v.frames_sent ≡ (if leb n 53 then n else n - 53 - 255 * (tables_for n - 1))
  pub state :
      0 < n → v.state ≡ (if leb v.frames_left v.frames_sent then send_next_table else send_data)

-- The messages of the first `n` frames.
unfoldable pub tables_sent : ℕ → VipTransfer → List (List ℕ)
tables_sent zero v = []
tables_sent (suc n) v = v.signed_table ∷ take (tables_for (suc n)) v.chained

-- What a call that succeeds sends, and what it makes of the data.
unfoldable pub new_table : VipState → VipTransfer → List (List ℕ)
new_table init v = v.signed_table ∷ []
new_table send_next_table v = get_or v.chained v.chained_cur [] ∷ []
new_table send_data v = []
new_table disabled v = []

unfoldable pub next_data : VipState → VipTransfer → VipTransfer
unfolding count_frame after_signed after_chained
next_data init v = count_frame (after_signed v)
next_data send_next_table v = count_frame (after_chained v)
next_data send_data v = count_frame v
next_data disabled v = v

pub call_runs :
    (s : VipState) (v : VipTransfer) (l : Link)
    → IsFaultless l
    → (s ≡ send_next_table → v.chained_cur < length v.chained)
    → handle_in s v l ≡ (ok (some (next_data s v)), record l { sent = l.sent ++ new_table s v })
unfolding handle_in new_table next_data
call_runs disabled v l h k = ground (arith, append-nil l.sent)
call_runs init v l h k = ground (arith, send_raw_sends v.signed_table l h)
call_runs send_next_table v l h k =
    ground (arith, k refl, send_raw_sends (get_or v.chained v.chained_cur []) l h)
call_runs send_data v l h k = ground (arith, append-nil l.sent)

pub IsAfter-signed :
    (start v : VipTransfer) → IsAfter 0 start v → IsAfter 1 start (next_data init v)
unfolding next_data
IsAfter-signed start v a = ground arith

pub IsAfter-chained :
    (n : ℕ) (start v : VipTransfer)
    → 0 < n
    → v.frames_left ≤ v.frames_sent
    → IsAfter n start v
    → IsAfter (suc n) start (next_data send_next_table v)
unfolding next_data
IsAfter-chained n start v pos full a = ground arith

pub IsAfter-counted :
    (n : ℕ) (start v : VipTransfer)
    → 0 < n
    → v.frames_sent < v.frames_left
    → IsAfter n start v
    → IsAfter (suc n) start (next_data send_data v)
unfolding next_data
IsAfter-counted n start v pos room a = ground arith
