-- ===== src/Sahara/Dump/Ends.antt =====
-- The loops of the memory dump end: none of them runs out of the fuel that it is given.
use qfenix.Common.{
  ℕ, zero, suc, ◌+◌, ◌<◌, ◌≡◌, refl, arith, true, false, Option, none, some, List, [], ◌∷◌,
}
use qfenix.Common.{ltb→lt, ap, ◌∙◌, ◌%◌, ◌^◌, length, ltb, not}
use qfenix.Link.{Link, ok, assert, acquire, qdl_read, qdl_write}
use qfenix.Common.{◌==◌, ◌/◌}
use qfenix.Common.Words.{field_at}
use qfenix.Sahara.Image.{length_of}
use qfenix.Sahara.Image.Ends.{Ends-sahara_send_reset}
use qfenix.Link.Ends.{
  Ends, Ends-pure, Ends-fault, Ends-bind, Ends-qdl_write, Ends-qdl_read, read_uses,
}
use qfenix.Link.Ends.{Ends-acquire, Ends-assert, Ends-choice, Ends-if, Ends-option, read_drops}
use qfenix.Sahara.Dump
use qfenix.Sahara.Dump.{DebugRegion64}

Ends-store_all : (path buf : List ℕ) (l : Link) → Ends (Dump.store_all path buf) l
unfolding Dump.store_all
Ends-store_all path buf l = record {
  ends = λ e. ground arith;
  uses = omega arith;
  bytes = omega arith;
}

Ends-fill_loop :
    (fuel : ℕ) (path : List ℕ) (remain offset : ℕ) (l : Link)
    → length l.incoming < fuel
    → Ends (Dump.fill_loop fuel path remain offset) l
unfolding Dump.fill_loop
Ends-fill_loop zero path remain offset l h = absurd (omega arith)
Ends-fill_loop (suc fuel) path remain offset l h =
    Ends-choice (ltb offset remain) _ _ l
      (λ _.
        Ends-bind (qdl_read Dump.debug_block_size) _ l (Ends-qdl_read Dump.debug_block_size l)
          λ got e.
            let l' = (qdl_read Dump.debug_block_size l).1 in
            Ends-option got _ _ l' (Ends-pure false l') λ buf g.
              Ends-bind (Dump.store_all path buf) _ l' (Ends-store_all path buf l') λ stored _.
                let l'' = (Dump.store_all path buf l').1 in
                let fewer = read_uses Dump.debug_block_size l buf (e ∙ ap ok g) in
                Ends-option stored _ _ l'' (Ends-pure false l'') λ buf_offset _.
                  Ends-fill_loop fuel path remain ((offset + buf_offset) % 2 ^ 64) l''
                    (omega (arith, fewer, (Ends-store_all path buf l').uses)))
      (λ _. Ends-pure true l)

Ends-fill_block : (path : List ℕ) (remain : ℕ) (l : Link) → Ends (Dump.fill_block path remain) l
unfolding Dump.fill_block
Ends-fill_block path remain l =
    let e = Ends-fill_loop (suc (length l.incoming)) path remain 0 l (omega arith) in
    record { ends = e.ends; uses = e.uses; bytes = e.bytes }

-- With no results left, no byte of a block can be read.
fill_block_none :
    (path : List ℕ) (remain : ℕ) (l : Link)
    → 0 < remain
    → l.incoming ≡ []
    → (Dump.fill_block path remain l).0 ≡ ok false
unfolding Dump.fill_block Dump.fill_loop qdl_read
fill_block_none path remain l pos e = ground arith

block_at_pos :
    (region : DebugRegion64) (chunk : ℕ) → chunk < region.len → 0 < Dump.block_at region chunk
unfolding Dump.block_at
block_at_pos region chunk h = ground arith

filled_left :
    (path : List ℕ) (remain : ℕ) (l : Link)
    → 0 < remain
    → (Dump.fill_block path remain l).0 ≡ ok true
    → 0 < length l.incoming
filled_left path remain l pos e = go l.incoming refl
  where
    go : (xs : List (Option (List ℕ))) → l.incoming ≡ xs → 0 < length l.incoming
    go [] none_left = absurd (ground (arith, fill_block_none path remain l))
    go (x ∷ xs) some_left = ground arith

Ends-dump_loop :
    (fuel : ℕ) (path : List ℕ) (region : DebugRegion64) (chunk : ℕ) (l : Link)
    → length l.incoming < fuel
    → Ends (Dump.dump_loop fuel path region chunk) l
unfolding Dump.dump_loop
Ends-dump_loop zero path region chunk l h = absurd (omega arith)
Ends-dump_loop (suc fuel) path region chunk l h =
    Ends-choice (ltb chunk region.len) _ _ l
      (λ inside. Ends-bind (qdl_write request) _ l (Ends-qdl_write request l) λ n _.
        let l' = (qdl_write request l).1 in
        Ends-option n _ _ l' (Ends-pure tt l') λ _ _.
          Ends-bind (Dump.fill_block path remain) _ l' (Ends-fill_block path remain l') λ filled e.
            let l'' = (Dump.fill_block path remain l').1 in
            Ends-choice filled _ _ l''
              (λ t.
                Ends-bind (qdl_read Dump.debug_block_size) _ l''
                  (Ends-qdl_read Dump.debug_block_size l'')
                  λ _ _.
                    Ends-dump_loop fuel path region ((chunk + Dump.debug_block_size) % 2 ^ 64)
                      (qdl_read Dump.debug_block_size l'').1
                      (omega (
                        arith,
                        filled_left path remain l'
                            (block_at_pos region chunk (ltb→lt chunk region.len inside))
                            (e ∙ ap ok t),
                        (Ends-fill_block path remain l').uses,
                        (Ends-qdl_write request l).uses,
                        read_drops Dump.debug_block_size l'',
                      )))
              (λ _. Ends-pure tt l''))
      (λ _. Ends-pure tt l)
  where
    remain : ℕ
    remain = Dump.block_at region chunk

    request : List ℕ
    request = Dump.mem_read64 ((region.addr + chunk) % 2 ^ 64) remain

Ends-dump_region :
    (path : List ℕ) (region : DebugRegion64) (l : Link) → Ends (Dump.dump_region path region) l
unfolding Dump.dump_region
Ends-dump_region path region l =
    let e = Ends-dump_loop (suc (length l.incoming)) path region 0 l (omega arith) in
    record { ends = e.ends; uses = e.uses; bytes = e.bytes }

Ends-sahara_debug64_one :
    (region : DebugRegion64) (ramdump_path : Option (List ℕ)) (l : Link)
    → Ends (Dump.sahara_debug64_one region ramdump_path) l
unfolding Dump.sahara_debug64_one
Ends-sahara_debug64_one region ramdump_path l = Ends-bind acquire _ l (Ends-acquire l) λ buf _.
    let l' = (acquire l).1 in
    Ends-if (not buf) _ _ l' (Ends-pure false l') (
      Ends-option (Dump.dump_path ramdump_path (Dump.c_string region.filename)) _ _ l'
        (Ends-fault l')
        λ path _. Ends-bind acquire _ l' (Ends-acquire l') λ fd _.
          let l'' = (acquire l').1 in
          Ends-if (not fd) _ _ l'' (Ends-pure false l'') (
            Ends-bind (Dump.dump_region path region) _ l'' (Ends-dump_region path region l'')
              λ _ _. Ends-pure true (Dump.dump_region path region l'').1))

Ends-skip_region :
    (region : DebugRegion64) (filter : Option (List ℕ)) (l : Link)
    → Ends (Dump.skip_region region filter) l
unfolding Dump.skip_region
Ends-skip_region region none l = Ends-pure false l
Ends-skip_region region (some f) l =
    Ends-option (Dump.c_string region.filename) _ _ l (Ends-fault l) (λ name _. Ends-pure _ l)

Ends-region_loop :
    (fuel n i : ℕ) (table : List ℕ) (ramdump_path filter : Option (List ℕ)) (l : Link)
    → 0 < fuel
    → n / Dump.region_size < fuel + i
    → Ends (Dump.region_loop fuel n i table ramdump_path filter) l
unfolding Dump.region_loop
Ends-region_loop zero n i table ramdump_path filter l some_left h = absurd (omega arith)
Ends-region_loop (suc fuel) n i table ramdump_path filter l some_left h =
    Ends-choice (ltb i (n / Dump.region_size)) _ _ l
      (λ inside.
        Ends-bind (Dump.skip_region region filter) _ l (Ends-skip_region region filter l)
          λ skipped _.
            let l' = (Dump.skip_region region filter l).1 in
            Ends-choice skipped _ _ l'
              (λ _.
                Ends-region_loop fuel n (i + 1) table ramdump_path filter l'
                  (omega (arith, h, ltb→lt i (n / Dump.region_size) inside)) (omega (arith, h)))
              (λ _.
                Ends-bind (Dump.sahara_debug64_one region ramdump_path) _ l'
                  (Ends-sahara_debug64_one region ramdump_path l')
                  λ dumped _.
                    let l'' = (Dump.sahara_debug64_one region ramdump_path l').1 in
                    Ends-choice dumped _ _ l''
                      (λ _.
                        Ends-region_loop fuel 0 (i + 1) table ramdump_path filter l''
                          (omega (arith, h, ltb→lt i (n / Dump.region_size) inside)) (omega arith))
                      (λ _. Ends-pure tt l'')))
      (λ _. Ends-pure tt l)
  where
    region : DebugRegion64
    region = Dump.region_at table i

Ends-dump_table :
    (table : List ℕ) (ramdump_path filter : Option (List ℕ)) (l : Link)
    → Ends (Dump.dump_table table ramdump_path filter) l
unfolding Dump.dump_table
Ends-dump_table table ramdump_path filter l =
    Ends-if (ltb (length table) Dump.region_size) _ _ l (Ends-pure tt l) (
      Ends-bind (Dump.region_loop (suc count) (length table) 0 table ramdump_path filter) _ l
        (Ends-region_loop (suc count) (length table) 0 table ramdump_path filter l (omega arith)
          (omega arith))
        λ _ _.
          Ends-sahara_send_reset
            (Dump.region_loop (suc count) (length table) 0 table ramdump_path filter l).1)
  where
    count : ℕ
    count = length table / Dump.region_size

-- A memory dump ends, whatever the device sends and whatever fails: the rounds that the loops are
-- allowed are never used up. It takes results of reads only.
pub sahara_debug64-Ends :
    (pkt : List ℕ) (ramdump_path filter : Option (List ℕ)) (l : Link)
    → Ends (Dump.sahara_debug64 pkt ramdump_path filter) l
unfolding Dump.sahara_debug64
sahara_debug64-Ends pkt ramdump_path filter l = Ends-bind (assert _) _ l (Ends-assert _ l) λ _ _.
    let l0 = (assert (length_of pkt == 0x18) l).1 in
    Ends-bind (qdl_write request) _ l0 (Ends-qdl_write request l0) λ n _.
      let l1 = (qdl_write request l0).1 in
      Ends-option n _ _ l1 (Ends-pure tt l1) λ _ _. Ends-if _ _ _ l1 (Ends-pure tt l1) (
        Ends-bind acquire _ l1 (Ends-acquire l1) λ table _.
          let l2 = (acquire l1).1 in
          Ends-if (not table) _ _ l2 (Ends-pure tt l2) (
            Ends-bind (qdl_read (field_at 8 pkt 16)) _ l2 (Ends-qdl_read (field_at 8 pkt 16) l2)
              λ got _.
                let l3 = (qdl_read (field_at 8 pkt 16) l2).1 in
                Ends-option got _ _ l3 (Ends-pure tt l3)
                  λ bytes _. Ends-dump_table bytes ramdump_path filter l3))
  where
    request : List ℕ
    request = Dump.mem_read64 (field_at 8 pkt 8) (field_at 8 pkt 16)
