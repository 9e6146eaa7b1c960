-- ===== src/Firehose/Write/Unread.antt =====
-- firehose.c: what firehose_program makes of a file that cannot be read to its end.
use mathlib.Core.List.{append_assoc, append-nil}
use mathlib.Core.Path.{subst, subst₂}
use qfenix.Common.{
  ℕ, zero, suc, ◌+◌, ◌-◌, ◌*◌, ◌/◌, ◌≤◌, ◌<◌, ◌≡◌, inl, inr, refl, sym, ap, ap₂, ◌∙◌, arith, min,
  Bool, true, false, Option, none, some, List, [], ◌∷◌, ◌++◌, length, take, drop, ◌==◌, ltb,
  Bool-cases, ==_refl, if◌then◌else◌, length-append, length-take, length-drop,
}
use qfenix.Link.{Link, Outcome, Exec, ok, pure, qdl_write, continue}
use qfenix.Firehose.Chunk.{joined}
use qfenix.Tasks.{Program}
use qfenix.Tasks.Queue.{minus_one}
use qfenix.Firehose.Write.{
  padded, Source, from_file, chunk_bytes, vip_before_chunk, program_loop, source_of,
  written_sectors, sector_size_of,
}
use qfenix.Firehose.Write.Sent.{one_chunk, drop_sum, without_vip, accepted}

-- `read` of a file of which the bytes from `bad` on cannot be read.
abbrev pub failing : List ℕ → ℕ → ℕ → ℕ → Option (List ℕ)
failing content bad pos n = if ltb bad (pos + n) then none else some (take n (drop pos content))

unfoldable failing_file : List ℕ → ℕ → Source
failing_file content bad = from_file (failing content bad)

-- A run that sends less than `n` bytes, from a place of the file on, and returns 0 all the same.
pub record Unread (run : Outcome ℕ × Link) (l : Link) (n : ℕ) (rest : List ℕ) : Type 0 where
  pub chunks : List (List ℕ)
  pub returns : run ≡ (ok 0, record l { sent = l.sent ++ chunks })
  pub short : length (joined chunks) < n
  pub front : joined chunks ≡ take (length (joined chunks)) rest

padded_whole : (n : ℕ) (xs : List ℕ) → length xs ≡ n → padded n xs ≡ xs
unfolding padded
padded_whole zero [] e = refl
padded_whole zero (x ∷ xs) e = absurd (omega (arith, e))
padded_whole (suc n) [] e = absurd (omega (arith, e))
padded_whole (suc n) (x ∷ xs) e = ap (◌∷◌ x) (padded_whole n xs (omega (arith, e)))

take-sum : (a b : ℕ) (xs : List ℕ) → take (a + b) xs ≡ take a xs ++ take b (drop a xs)
take-sum zero b xs = let e : 0 + b ≡ b = omega arith in ap (λ (t : ℕ). take t xs) e
take-sum (suc a) b [] =
    let e : suc a + b ≡ suc (a + b) = omega arith in
    ap (λ (t : ℕ). take {A = ℕ} t []) e ∙ sym (none_taken b)
  where
    none_taken : (m : ℕ) → take {A = ℕ} m [] ≡ []
    none_taken zero = refl
    none_taken (suc m) = refl
take-sum (suc a) b (x ∷ xs) =
    let e : suc a + b ≡ suc (a + b) = omega arith in
    ap (λ (t : ℕ). take t (x ∷ xs)) e ∙ ap (◌∷◌ x) (take-sum a b xs)

-- One more chunk in front.
Unread-more :
    (run : Outcome ℕ × Link) (l : Link) (n m : ℕ) (xs bytes : List ℕ)
    → Unread run (record l { sent = l.sent ++ bytes ∷ [] }) m (drop n xs)
    → bytes ≡ take n xs
    → length bytes ≡ n
    → Unread run l (n + m) xs
unfolding joined
Unread-more run l n m xs bytes later e size = record {
  chunks = bytes ∷ later.chunks;
  returns =
      later.returns
      ∙ ap (λ (t : List (List ℕ)). (ok 0, record l { sent = t }))
          (append_assoc l.sent (bytes ∷ []) later.chunks);
  short = omega (arith, later.short, size, length-append bytes (joined later.chunks));
  front =
      ap₂ (λ (u v : List ℕ). u ++ v) e later.front
      ∙ sym (take-sum n (length (joined later.chunks)) xs)
      ∙ ap (λ (t : ℕ). take t xs) (omega (arith, size, length-append bytes (joined later.chunks)));
}

module _ (clear_status : Exec (Unit {0})) (firehose_read : Exec ℕ) (content : List ℕ)
    (bad : ℕ) where
  -- The loop without VIP.
  abbrev run : ℕ → ℕ → ℕ → ℕ → ℕ → Exec ℕ
  run fuel sector_size payload left pos =
      program_loop (pure 0) (pure false) clear_status firehose_read fuel (failing_file content bad)
        sector_size payload left pos 0

  failed_round :
      (fuel sector_size payload left pos : ℕ) (l : Link)
      → (left == 0) ≡ false
      → ltb bad (pos + min (payload / sector_size) left * sector_size) ≡ true
      → run (suc fuel) sector_size payload left pos l ≡ (ok 0, l)
  unfolding program_loop failing_file chunk_bytes
  failed_round fuel sector_size payload left pos l going beyond = ground (arith, going, beyond)

  good_round :
      (fuel sector_size payload left pos : ℕ) (l : Link)
      → (left == 0) ≡ false
      → ltb bad (pos + min (payload / sector_size) left * sector_size) ≡ false
      → l.accepted ≡ []
      → run (suc fuel) sector_size payload left pos l ≡ (
          let k = min (payload / sector_size) left in
          let got = take (k * sector_size) (drop pos content) in
          run fuel sector_size payload
            (left - k)
            (pos + length got)
            (record l { sent = l.sent ++ padded (k * sector_size) got ∷ [] }))
  unfolding program_loop failing_file chunk_bytes vip_before_chunk qdl_write
  good_round fuel sector_size payload left pos l going inside acc =
      let k = min (payload / sector_size) left in
      let bytes = padded (k * sector_size) (take (k * sector_size) (drop pos content)) in
      ground (arith, going, inside, acc, ==_refl (length bytes))

  program_loop-Unread :
      (fuel sector_size payload left pos : ℕ) (l : Link)
      → left < fuel
      → 0 < sector_size
      → sector_size ≤ payload
      → l.accepted ≡ []
      → pos ≤ bad
      → bad ≤ length content
      → bad < pos + left * sector_size
      → Unread (run fuel sector_size payload left pos l) l (left * sector_size) (drop pos content)
  program_loop-Unread zero sector_size payload left pos l f p q acc b w h =
      absurd (omega (arith, f))
  program_loop-Unread (suc fuel) sector_size payload left pos l f p q acc b w h =
      elim (Bool-cases (left == 0)) [
        | inl done ↦
            let none_left : left ≡ 0 = ground (arith, done) in
            let no_bytes : left * sector_size ≡ 0 =
              omega (arith, ap (λ (t : ℕ). t * sector_size) none_left) in
            absurd (omega (arith, b, h, no_bytes))
        | inr going ↦
            let k = min (payload / sector_size) left in
            let n = k * sector_size in
            let xs = drop pos content in
            let some_left : 0 < left = ground (arith, going) in
            let more = one_chunk sector_size payload left p q some_left in
            elim (Bool-cases (ltb bad (pos + n))) [
              | inl beyond ↦ record {
                chunks = [];
                returns =
                    failed_round fuel sector_size payload left pos l going beyond
                    ∙ ap (λ (t : List (List ℕ)). (ok 0, record l { sent = t }))
                        (sym (append-nil l.sent));
                short = unfold joined in (omega (arith, b, h));
                front = unfold joined in refl;
              }
              | inr inside ↦
                  let fits : pos + n ≤ bad = ground (arith, inside) in
                  let got = take n xs in
                  let size : length got ≡ n =
                    omega (arith, fits, w, length-take n xs, length-drop pos content) in
                  let pad = padded_whole n got size in
                  let l' = record l { sent = l.sent ++ padded n got ∷ [] } in
                  let d : left ≡ k + (left - k) = omega arith in
                  let total : n + (left - k) * sector_size ≡ left * sector_size =
                    omega (arith, ap (λ (t : ℕ). t * sector_size) d) in
                  let later =
                    program_loop-Unread fuel sector_size payload (left - k) (pos + n) l'
                      (omega (arith, f, more)) p q acc fits w (omega (arith, h, total)) in
                  let all =
                    Unread-more (run fuel sector_size payload (left - k) (pos + n) l') l n
                      ((left - k) * sector_size) xs (padded n got)
                      (subst
                        (λ (t : List ℕ).
                          Unread (run fuel sector_size payload (left - k) (pos + n) l') l'
                            ((left - k) * sector_size) t)
                        (drop_sum pos n content) later)
                      pad (ap (λ (t : List ℕ). length t) pad ∙ size) in
                  let step =
                    good_round fuel sector_size payload left pos l going inside acc
                    ∙ ap (λ (t : ℕ). run fuel sector_size payload (left - k) (pos + t) l') size in
                  subst₂ (λ (r : Outcome ℕ × Link) (t : ℕ). Unread r l t xs) (sym step) total all
            ]
      ]

  -- Without VIP, when the request is sent and acknowledged, every later write takes all bytes, a
  -- sector fits into the payload, and just the reads that go beyond some place of the file fail, one
  -- before the end of the sectors that were announced: firehose_program returns 0, as for success,
  -- although what it has sent, the front of the data, is less than these sectors.
  pub firehose_program-Unread :
      (request : Program → ℕ → Exec Bool) (device_sector_size payload : ℕ) (p : Program) (size : ℕ)
      → (pos : ℕ) (l l' after : Link)
      → (let n = written_sectors p (sector_size_of p device_sector_size) size in
          request p n l ≡ (ok true, l'))
      → firehose_read l' ≡ (ok 0, after)
      → source_of p (sector_size_of p device_sector_size) (failing content bad)
        ≡ some (from_file (failing content bad), pos)
      → after.accepted ≡ []
      → 0 < sector_size_of p device_sector_size
      → sector_size_of p device_sector_size ≤ payload
      → pos ≤ bad
      → bad ≤ length content
      → (let ss = sector_size_of p device_sector_size in bad < pos + written_sectors p ss size * ss)
      → (let ss = sector_size_of p device_sector_size in
          Unread
            (without_vip clear_status firehose_read request device_sector_size payload p size
              (failing content bad)
              l)
            after
            (written_sectors p ss size * ss)
            (drop pos content))
  unfolding failing_file
  firehose_program-Unread request device_sector_size payload p size pos l l' after sent ack src acc
        some_size fits b w h =
      let ss = sector_size_of p device_sector_size in
      let n = written_sectors p ss size in
      let all : Unread (run (suc n) ss payload n pos after) after (n * ss) (drop pos content) =
        program_loop-Unread (suc n) ss payload n pos after (omega arith) some_size fits acc b w h in
      record {
        chunks = all.chunks;
        returns =
            accepted clear_status firehose_read content request device_sector_size payload p size
              (failing content bad) (failing_file content bad) pos l l' after sent ack src
            ∙ ap
                (λ (t : Outcome ℕ × Link).
                  continue t.0 (λ ret. pure (if ret == 0 then 0 else minus_one)) t.1)
                all.returns;
        short = all.short;
        front = all.front;
      }
