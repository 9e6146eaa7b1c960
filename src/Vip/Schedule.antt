-- ===== src/Vip/Schedule.antt =====
-- vip.c: which table is sent before which frame.
use mathlib.Core.List.{append_assoc, append-nil}
use qfenix.Common.{ℕ, zero, suc, ◌≤◌, ◌<◌, ◌≡◌, ◌≢◌, refl, arith, ap, ap₂, sym, ◌∙◌}
use qfenix.Common.{none, some, List, [], ◌∷◌, ◌++◌, length, get_or, take}
use qfenix.Link.{Link, ok}
use native.Mathlib.Decide.{dec_lt}
use mathlib.Core.Path.{subst}
use qfenix.Vip.{VipState, VipTransfer, init, send_next_table, send_data}
use qfenix.Vip.{handle_in, vip_transfer_handle_tables}
use qfenix.Vip.Steps.{
  frames, IsFaultless, tables_for, IsAfter, tables_sent, new_table, next_data, call_runs,
  IsAfter-signed, IsAfter-chained, IsAfter-counted,
}

take-suc :
    (k : ℕ) (xs : List (List ℕ))
    → k < length xs
    → take k xs ++ get_or xs k [] ∷ [] ≡ take (suc k) xs
take-suc k [] h = absurd (omega arith)
take-suc zero (x ∷ xs) h = refl
take-suc (suc k) (x ∷ xs) h = ap (λ (t : List (List ℕ)). x ∷ t) (take-suc k xs (omega arith))

-- One more frame, in each state that can be met: the data, and the messages so far.
record Next (n : ℕ) (start v : VipTransfer) : Type 0 where
  pub after : IsAfter (suc n) start (next_data v.state v)
  pub messages : tables_sent n start ++ new_table v.state v ≡ tables_sent (suc n) start
  pub allowed : v.state ≡ send_next_table → v.chained_cur < length v.chained

Next-at :
    (n : ℕ) (start v : VipTransfer) (s : VipState)
    → v.state ≡ s
    → IsAfter (suc n) start (next_data s v)
    → tables_sent n start ++ new_table s v ≡ tables_sent (suc n) start
    → (s ≡ send_next_table → v.chained_cur < length v.chained)
    → Next n start v
Next-at n start v s e after messages allowed =
    let e' = sym e in
    record {
      after = subst (λ t. IsAfter (suc n) start (next_data t v)) e' after;
      messages =
          subst (λ t. tables_sent n start ++ new_table t v ≡ tables_sent (suc n) start) e' messages;
      allowed = λ q. allowed (e' ∙ q);
    }

first-Next : (start v : VipTransfer) → IsAfter 0 start v → Next 0 start v
first-Next start v a =
    Next-at 0 start v init (a.fresh refl) (IsAfter-signed start v a)
      (unfold tables_sent new_table in ap (λ (t : List ℕ). t ∷ []) a.same_signed)
      (λ q. absurd (ground arith))

tables_for_room :
    (n : ℕ) (start v : VipTransfer)
    → v.frames_sent < v.frames_left
    → IsAfter (suc n) start v
    → tables_for (suc (suc n)) ≡ tables_for (suc n)
tables_for_room n start v room a = ground (arith, a.left (omega arith), a.sent (omega arith))

tables_for_full :
    (n : ℕ) (start v : VipTransfer)
    → v.frames_left ≤ v.frames_sent
    → IsAfter (suc n) start v
    → tables_for (suc (suc n)) ≡ suc (tables_for (suc n))
tables_for_full n start v full a = ground (arith, a.left (omega arith), a.sent (omega arith))

full_messages :
    (n : ℕ) (start v : VipTransfer)
    → tables_for (suc (suc n)) ≡ suc (tables_for (suc n))
    → tables_for (suc (suc n)) ≤ length start.chained
    → IsAfter (suc n) start v
    → tables_sent (suc n) start ++ new_table send_next_table v ≡ tables_sent (suc (suc n)) start
unfolding tables_sent new_table
full_messages n start v e enough a =
    ap (λ (t : List (List ℕ)). start.signed_table ∷ t)
      (ap₂
          (λ (ts : List (List ℕ)) (i : ℕ).
            take (tables_for (suc n)) start.chained ++ get_or ts i [] ∷ [])
          a.same_chained a.cur
        ∙ take-suc (tables_for (suc n)) start.chained (omega (arith, e))
        ∙ ap (λ (k : ℕ). take k start.chained) (sym e))

room_messages :
    (n : ℕ) (start v : VipTransfer)
    → tables_for (suc (suc n)) ≡ tables_for (suc n)
    → tables_sent (suc n) start ++ new_table send_data v ≡ tables_sent (suc (suc n)) start
unfolding tables_sent new_table
room_messages n start v e =
    append-nil (start.signed_table ∷ take (tables_for (suc n)) start.chained)
    ∙ ap (λ (k : ℕ). start.signed_table ∷ take k start.chained) (sym e)

later-Next :
    (n : ℕ) (start v : VipTransfer)
    → tables_for (suc (suc n)) ≤ length start.chained
    → IsAfter (suc n) start v
    → Next (suc n) start v
later-Next n start v enough a = elim (dec_lt v.frames_sent v.frames_left) [
  | yes room ↦
      Next-at (suc n) start v send_data (ground (arith, a.state (omega arith)))
        (IsAfter-counted (suc n) start v (omega arith) room a)
        (room_messages n start v (tables_for_room n start v room a)) (λ q. absurd (ground arith))
  | no full ↦
      let more = tables_for_full n start v (omega arith) a in
      Next-at (suc n) start v send_next_table (ground (arith, a.state (omega arith)))
        (IsAfter-chained (suc n) start v (omega arith) (omega arith) a)
        (full_messages n start v more enough a)
        (λ _. omega (arith, more, ap length a.same_chained, a.cur))
]

Next-holds :
    (n : ℕ) (start v : VipTransfer)
    → tables_for (suc n) ≤ length start.chained
    → IsAfter n start v
    → Next n start v
Next-holds zero start v enough a = first-Next start v a
Next-holds (suc n) start v enough a = later-Next n start v enough a

-- Where `n` frames have led.
record Reached (n : ℕ) (start : VipTransfer) (l : Link) : Type 0 where
  pub v : VipTransfer
  pub runs : frames n start l ≡ (ok (some v), record l { sent = l.sent ++ tables_sent n start })
  pub after : IsAfter n start v

fresh-IsAfter :
    (start : VipTransfer) → start.state ≡ init → start.chained_cur ≡ 0 → IsAfter 0 start start
fresh-IsAfter start s c = record {
  same_signed = refl;
  same_chained = refl;
  cur = c;
  fresh = λ _. s;
  left = λ h. absurd (omega arith);
  sent = λ h. absurd (omega arith);
  state = λ h. absurd (omega arith);
}

frames-suc :
    (n : ℕ) (start v : VipTransfer) (l : Link)
    → IsFaultless l
    → Next n start v
    → frames n start l ≡ (ok (some v), record l { sent = l.sent ++ tables_sent n start })
    → frames (suc n) start l
      ≡ (ok (some (next_data v.state v)), record l { sent = l.sent ++ tables_sent (suc n) start })
unfolding vip_transfer_handle_tables
frames-suc n start v l faultless next runs =
    unfold frames in
    rw runs (
      call_runs v.state v (record l { sent = l.sent ++ tables_sent n start }) faultless next.allowed
      ∙ λ i. (
        ok (some (next_data v.state v)),
        record l {
          sent =
              (append_assoc l.sent (tables_sent n start) (new_table v.state v)
                  ∙ ap (λ (t : List (List ℕ)). l.sent ++ t) next.messages)
                i;
        },
      ))

frames-Reached :
    (n : ℕ) (start : VipTransfer) (l : Link)
    → IsFaultless l
    → start.state ≡ init
    → start.chained_cur ≡ 0
    → tables_for n ≤ length start.chained
    → Reached n start l
frames-Reached zero start l faultless s c enough = record {
  v = start;
  runs =
      unfold frames tables_sent in
      λ i. (ok (some start), record l { sent = sym (append-nil l.sent) i });
  after = fresh-IsAfter start s c;
}
frames-Reached (suc n) start l faultless s c enough =
    let before = frames-Reached n start l faultless s c (omega arith) in
    let next = Next-holds n start before.v enough before.after in
    record {
      v = next_data before.v.state before.v;
      runs = frames-suc n start before.v l faultless next before.runs;
      after = next.after;
    }

-- From a fresh start on a link where nothing fails, with as many chained tables as `n` frames need,
-- all calls succeed, and the messages are the signed table before the first frame and the chained
-- tables, each once and in their order, one before frame 54 and one before every 255th frame
-- after that.
pub vip_transfer_handle_tables-sent :
    (n : ℕ) (start : VipTransfer) (l : Link)
    → IsFaultless l
    → start.state ≡ init
    → start.chained_cur ≡ 0
    → tables_for n ≤ length start.chained
    → ((frames n start l).0 ≢ ok none)
      × ((frames n start l).1 ≡ record l { sent = l.sent ++ tables_sent n start })
vip_transfer_handle_tables-sent n start l faultless s c enough =
    let r = frames-Reached n start l faultless s c enough in
    (λ e. some_ne_none r.v (sym (ap (λ t. t.0) r.runs) ∙ e), ap (λ t. t.1) r.runs)
  where
    some_ne_none : (v : VipTransfer) → ok (some v) ≢ ok none
    some_ne_none v e = ground arith

-- The next call when a table is needed and there is none.
missing_table :
    (v : VipTransfer) (l : Link)
    → v.state ≡ send_next_table
    → length v.chained ≤ v.chained_cur
    → vip_transfer_handle_tables v l ≡ (ok none, l)
unfolding vip_transfer_handle_tables handle_in
missing_table v l s h = rw s (ground (arith, h))

needs_table :
    (n : ℕ) (start v : VipTransfer)
    → tables_for n < tables_for (suc n)
    → tables_for n ≡ length start.chained
    → 0 < n
    → IsAfter n start v
    → (v.state ≡ send_next_table) × (length v.chained ≤ v.chained_cur)
needs_table n start v more last pos a = (
  ground (arith, a.state pos, a.left pos, a.sent pos),
  omega (arith, last, a.cur, ap length a.same_chained),
)

-- When the frames so far need all the chained tables there are and the next one needs a table more,
-- its call returns an error and nothing is sent in it.
vip_transfer_handle_tables-missing :
    (n : ℕ) (start : VipTransfer) (l : Link)
    → IsFaultless l
    → start.state ≡ init
    → start.chained_cur ≡ 0
    → 0 < n
    → tables_for n ≡ length start.chained
    → tables_for n < tables_for (suc n)
    → frames (suc n) start l ≡ (ok none, record l { sent = l.sent ++ tables_sent n start })
vip_transfer_handle_tables-missing n start l faultless s c pos last more =
    let r = frames-Reached n start l faultless s c (omega (arith, last)) in
    let need = needs_table n start r.v more last pos r.after in
    unfold frames in
    rw r.runs (missing_table r.v (record l { sent = l.sent ++ tables_sent n start }) need.0 need.1)
