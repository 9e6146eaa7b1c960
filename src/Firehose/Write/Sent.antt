-- ===== src/Firehose/Write/Sent.antt =====
-- firehose.c: the chunks that firehose_program sends are the file.
use mathlib.Core.List.{append_assoc, append-nil}
use mathlib.Core.Path.{subst, subst₂}
use qfenix.Common.{
  ℕ, zero, suc, ◌+◌, ◌-◌, ◌*◌, ◌/◌, ◌≤◌, ◌<◌, ◌≡◌, inl, inr, refl, sym, ap, ap₂, ◌∙◌, arith, min,
  Bool, true, false, Option, some, List, [], ◌∷◌, ◌++◌, length, take, drop, ◌==◌, Bool-cases,
  ==_refl, if◌then◌else◌,
}
use native.Mathlib.Nat.{le-div_iff_mul-le}
use qfenix.Link.{Link, Outcome, Exec, ok, pure, qdl_write, ◌>>=◌, continue}
use qfenix.Firehose.Chunk.{joined}
use qfenix.Tasks.{Program}
use qfenix.Tasks.Queue.{minus_one}
use qfenix.Firehose.Write.{
  padded, Source, from_file, chunk_bytes, vip_before_chunk, program_loop, source_of,
  written_sectors, firehose_program, sector_size_of,
}

take_none : (n : ℕ) → [] ≡ take {A = ℕ} n []
take_none zero = refl
take_none (suc n) = refl

drop_none : (n : ℕ) → [] ≡ drop {A = ℕ} n []
drop_none zero = refl
drop_none (suc n) = refl

padded-add :
    (a b : ℕ) (xs : List ℕ) → padded (a + b) xs ≡ padded a (take a xs) ++ padded b (drop a xs)
unfolding padded
padded-add zero b xs = let e : 0 + b ≡ b = omega arith in ap (λ (t : ℕ). padded t xs) e
padded-add (suc a) b [] =
    let e : suc a + b ≡ suc (a + b) = omega arith in
    ap (λ (t : ℕ). padded t []) e
    ∙ ap (◌∷◌ 0) (
        padded-add a b []
        ∙ ap₂ (λ (u v : List ℕ). padded a u ++ padded b v) (sym (take_none a)) (sym (drop_none a)))
padded-add (suc a) b (x ∷ xs) =
    let e : suc a + b ≡ suc (a + b) = omega arith in
    ap (λ (t : ℕ). padded t (x ∷ xs)) e ∙ ap (◌∷◌ x) (padded-add a b xs)

pub drop_sum : (a b : ℕ) (xs : List ℕ) → drop (a + b) xs ≡ drop b (drop a xs)
drop_sum zero b xs = let e : 0 + b ≡ b = omega arith in ap (λ (t : ℕ). drop t xs) e
drop_sum (suc a) b [] =
    let e : suc a + b ≡ suc (a + b) = omega arith in
    ap (λ (t : ℕ). drop {A = ℕ} t []) e ∙ drop_none b
drop_sum (suc a) b (x ∷ xs) =
    let e : suc a + b ≡ suc (a + b) = omega arith in
    ap (λ (t : ℕ). drop t (x ∷ xs)) e ∙ drop_sum a b xs

drop_taken : (n : ℕ) (xs : List ℕ) → drop (length (take n xs)) xs ≡ drop n xs
drop_taken zero xs = refl
drop_taken (suc n) [] = refl
drop_taken (suc n) (x ∷ xs) = drop_taken n xs

-- `read` of a file that can be read.
abbrev pub reading : List ℕ → ℕ → ℕ → Option (List ℕ)
reading content pos n = some (take n (drop pos content))

unfoldable readable : List ℕ → Source
readable content = from_file (reading content)

pub one_chunk :
    (sector_size payload left : ℕ)
    → 0 < sector_size
    → sector_size ≤ payload
    → 0 < left
    → 0 < min (payload / sector_size) left
one_chunk sector_size payload left pos fits some_left =
    let whole : 1 ≤ payload / sector_size = (le-div_iff_mul-le pos).1 (omega (arith, fits)) in
    omega (arith, whole, some_left)

-- A run that sends the bytes from a place of the file on, in chunks, and ends with the answer.
pub record Sends (firehose_read : Exec ℕ) (run : Outcome ℕ × Link) (l : Link) (n : ℕ)
    (rest : List ℕ) : Type 0 where
  pub chunks : List (List ℕ)
  pub then_answer : run ≡ firehose_read (record l { sent = l.sent ++ chunks })
  pub whole : joined chunks ≡ padded n rest

-- One more chunk in front.
Sends-more :
    (firehose_read : Exec ℕ) (run : Outcome ℕ × Link) (l : Link) (n m : ℕ) (xs bytes : List ℕ)
    → Sends firehose_read run (record l { sent = l.sent ++ bytes ∷ [] }) m (drop n xs)
    → bytes ≡ padded n (take n xs)
    → Sends firehose_read run l (n + m) xs
Sends-more firehose_read run l n m xs bytes later e = record {
  chunks = bytes ∷ later.chunks;
  then_answer =
      later.then_answer
      ∙ ap (λ (t : List (List ℕ)). firehose_read (record l { sent = t }))
          (append_assoc l.sent (bytes ∷ []) later.chunks);
  whole = unfold joined in (ap₂ (λ (u v : List ℕ). u ++ v) e later.whole ∙ sym (padded-add n m xs));
}

-- What `out:` makes of the last answer.
abbrev pub last_answer : Exec ℕ → Exec ℕ
last_answer firehose_read = firehose_read >>= λ ret. pure (if ret == 0 then 0 else minus_one)

-- firehose_program without VIP.
abbrev pub without_vip :
    Exec (Unit {0})
    → Exec ℕ
    → (Program → ℕ → Exec Bool)
    → ℕ
    → ℕ
    → Program
    → ℕ
    → (ℕ → ℕ → Option (List ℕ))
    → Exec ℕ
without_vip clear_status firehose_read =
    firehose_program (pure 0) (pure false) clear_status firehose_read

module _ (clear_status : Exec (Unit {0})) (firehose_read : Exec ℕ) (content : List ℕ) where
  -- The loop without VIP.
  abbrev run : ℕ → ℕ → ℕ → ℕ → ℕ → Exec ℕ
  run fuel sector_size payload left pos =
      program_loop (pure 0) (pure false) clear_status firehose_read fuel (readable content)
        sector_size payload left pos 0

  one_round :
      (fuel sector_size payload left pos : ℕ) (l : Link)
      → (left == 0) ≡ false
      → l.accepted ≡ []
      → run (suc fuel) sector_size payload left pos l ≡ (
          let k = min (payload / sector_size) left in
          let got = take (k * sector_size) (drop pos content) in
          run fuel sector_size payload
            (left - k)
            (pos + length got)
            (record l { sent = l.sent ++ padded (k * sector_size) got ∷ [] }))
  unfolding program_loop readable chunk_bytes vip_before_chunk qdl_write
  one_round fuel sector_size payload left pos l going acc =
      let k = min (payload / sector_size) left in
      let bytes = padded (k * sector_size) (take (k * sector_size) (drop pos content)) in
      ground (arith, going, acc, ==_refl (length bytes))

  program_loop-Sends :
      (fuel sector_size payload left pos : ℕ) (l : Link)
      → left < fuel
      → 0 < sector_size
      → sector_size ≤ payload
      → l.accepted ≡ []
      → Sends firehose_read
          (run fuel sector_size payload left pos l)
          l
          (left * sector_size)
          (drop pos content)
  program_loop-Sends zero sector_size payload left pos l f p q acc = absurd (omega (arith, f))
  program_loop-Sends (suc fuel) sector_size payload left pos l f p q acc =
      elim (Bool-cases (left == 0)) [
        | inl done ↦
            let none_left : left ≡ 0 = ground (arith, done) in
            let no_bytes : left * sector_size ≡ 0 =
              omega (arith, ap (λ (t : ℕ). t * sector_size) none_left) in
            record {
              chunks = [];
              then_answer =
                  unfold program_loop in
                  (rw (done, program_loop)
                    (ap (λ (t : List (List ℕ)). firehose_read (record l { sent = t }))
                      (sym (append-nil l.sent))));
              whole =
                  unfold joined padded in
                  sym (ap (λ (t : ℕ). padded t (drop pos content)) no_bytes);
            }
        | inr going ↦
            let k = min (payload / sector_size) left in
            let n = k * sector_size in
            let xs = drop pos content in
            let some_left : 0 < left = ground (arith, going) in
            let more = one_chunk sector_size payload left p q some_left in
            let later =
              program_loop-Sends fuel sector_size payload (left - k) (pos + length (take n xs))
                (record l { sent = l.sent ++ padded n (take n xs) ∷ [] }) (omega (arith, f, more)) p
                q acc in
            let rest = drop_sum pos (length (take n xs)) content ∙ drop_taken n xs in
            let d : left ≡ k + (left - k) = omega arith in
            let total : n + (left - k) * sector_size ≡ left * sector_size =
              omega (arith, ap (λ (t : ℕ). t * sector_size) d) in
            let all =
              Sends-more firehose_read
                (run fuel sector_size payload (left - k) (pos + length (take n xs))
                  (record l { sent = l.sent ++ padded n (take n xs) ∷ [] }))
                l n ((left - k) * sector_size) xs (padded n (take n xs))
                (subst
                  (λ (t : List ℕ).
                    Sends firehose_read
                      (run fuel sector_size payload (left - k) (pos + length (take n xs))
                        (record l { sent = l.sent ++ padded n (take n xs) ∷ [] }))
                      (record l { sent = l.sent ++ padded n (take n xs) ∷ [] })
                      ((left - k) * sector_size) t)
                  rest later)
                refl in
            subst₂ (λ (r : Outcome ℕ × Link) (t : ℕ). Sends firehose_read r l t xs)
              (sym (one_round fuel sector_size payload left pos l going acc)) total all
      ]

  -- Behind a request that was sent and acknowledged, firehose_program is its loop.
  pub accepted :
      (request : Program → ℕ → Exec Bool) (device_sector_size payload : ℕ) (p : Program) (size : ℕ)
      → (read : ℕ → ℕ → Option (List ℕ)) (source : Source) (pos : ℕ) (l l' after : Link)
      → (let n = written_sectors p (sector_size_of p device_sector_size) size in
          request p n l ≡ (ok true, l'))
      → firehose_read l' ≡ (ok 0, after)
      → source_of p (sector_size_of p device_sector_size) read ≡ some (source, pos)
      → without_vip clear_status firehose_read request device_sector_size payload p size read l ≡ (
          let n = written_sectors p (sector_size_of p device_sector_size) size in
          (program_loop
                (pure 0)
                (pure false)
                clear_status
                firehose_read
                (suc n)
                source
                (sector_size_of p device_sector_size)
                payload
                n
                pos
                0
              >>= λ ret. pure (if ret == 0 then 0 else minus_one))
            after)
  unfolding firehose_program
  accepted request device_sector_size payload p size read source pos l l' after sent ack src =
      ground (arith, sent, ack, src)

  -- Without VIP, when the request is sent and acknowledged, every later write takes all bytes and a
  -- sector fits into the payload: what is sent for a program from an open file is the file from
  -- where the data starts, as many sectors as the request says, with zeros behind its end; what the
  -- device answers then is the result.
  pub firehose_program-Sends :
      (request : Program → ℕ → Exec Bool) (device_sector_size payload : ℕ) (p : Program) (size : ℕ)
      → (pos : ℕ) (l l' after : Link)
      → (let n = written_sectors p (sector_size_of p device_sector_size) size in
          request p n l ≡ (ok true, l'))
      → firehose_read l' ≡ (ok 0, after)
      → source_of p (sector_size_of p device_sector_size) (reading content)
        ≡ some (from_file (reading content), pos)
      → after.accepted ≡ []
      → 0 < sector_size_of p device_sector_size
      → sector_size_of p device_sector_size ≤ payload
      → (let ss = sector_size_of p device_sector_size in
          Sends
            (last_answer firehose_read)
            (without_vip clear_status firehose_read request device_sector_size payload p size
              (reading content)
              l)
            after
            (written_sectors p ss size * ss)
            (drop pos content))
  unfolding readable
  firehose_program-Sends request device_sector_size payload p size pos l l' after sent ack src acc
        some_size fits =
      let ss = sector_size_of p device_sector_size in
      let n = written_sectors p ss size in
      let all : Sends firehose_read (run (suc n) ss payload n pos after) after (n * ss)
          (drop pos content) =
        program_loop-Sends (suc n) ss payload n pos after (omega arith) some_size fits acc in
      record {
        chunks = all.chunks;
        then_answer =
            accepted request device_sector_size payload p size (reading content) (readable content)
              pos l l' after sent ack src
            ∙ ap
                (λ (t : Outcome ℕ × Link).
                  continue t.0 (λ ret. pure (if ret == 0 then 0 else minus_one)) t.1)
                all.then_answer;
        whole = all.whole;
      }
