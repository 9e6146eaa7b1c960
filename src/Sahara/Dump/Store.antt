-- ===== src/Sahara/Dump/Store.antt =====
-- What the loop over `write` makes of the outcomes of its calls.
use mathlib.Core.List.{append_assoc, append-nil}
use qfenix.Common.{ℕ, zero, suc, ◌+◌, ◌-◌, ◌%◌, ◌^◌, ◌≤◌, ◌<◌, ◌≡◌, refl, arith, ap, sym, ◌∙◌}
use qfenix.Common.{
  Option, none, some, List, [], ◌∷◌, ◌++◌, ◌⊎◌, take-append-drop, lt→ltb, map, length, take, drop,
  inl, inr,
}
use native.Mathlib.Decide.{dec_lt}
use qfenix.Sahara.Dump.{Stored, store_loop, written_of, stored_bytes}

-- Each call takes some of the bytes that are left, and no more.
abbrev pub Progresses : List (Option ℕ) → ℕ → Type 0
Progresses [] left = Unit
Progresses (none ∷ results) left = left ≡ 0
Progresses (some k ∷ results) left =
    (left ≡ 0) ⊎ ((0 < k) × (k ≤ left) × Progresses results (left - k))

-- The pieces one after the other.
abbrev pub joined : List (List ℕ) → List ℕ
joined [] = []
joined (piece ∷ rest) = piece ++ joined rest

abbrev pub at_path : List ℕ → List ℕ → List ℕ × List ℕ
at_path path bytes = (path, bytes)

store_step :
    (k : ℕ) (results : List (Option ℕ)) (path buf : List ℕ) (o : ℕ) (files : List (List ℕ × List ℕ))
    → length buf < 2 ^ 64
    → 0 < k
    → o + k ≤ length buf
    → store_loop (some k ∷ results) path buf o files
      ≡ store_loop results path buf (o + k) (files ++ (path, take k (drop o buf)) ∷ [])
unfolding store_loop written_of stored_bytes
store_step k results path buf o files small pos fits =
    let wrap : (o + k) % 2 ^ 64 ≡ o + k = omega arith in ground (arith, wrap)

store_full :
    (results : List (Option ℕ)) (path buf : List ℕ) (files : List (List ℕ × List ℕ)) (o : ℕ)
    → length buf ≤ o
    → store_loop results path buf o files
      ≡ record { buf_offset = some o; left = results; files = files }
unfolding store_loop
store_full [] path buf files o e = ground arith
store_full (r ∷ results) path buf files o e = ground arith

drop-drop {ℓ} : {A : Type ℓ} (k o : ℕ) (xs : List A) → drop k (drop o xs) ≡ drop (o + k) xs
drop-drop k zero xs = let e : 0 + k ≡ k = omega arith in rw e
drop-drop zero (suc o) [] = let e : suc o + 0 ≡ suc o = omega arith in rw e
drop-drop (suc k) (suc o) [] = let e : suc o + suc k ≡ suc (o + suc k) = omega arith in rw e
drop-drop k (suc o) (x ∷ xs) =
    let e : suc o + k ≡ suc (o + k) = omega arith in rw e (drop-drop k o xs)

drop_all {ℓ} : {A : Type ℓ} (o : ℕ) (xs : List A) → length xs ≤ o → drop o xs ≡ []
drop_all zero [] h = refl
drop_all zero (x ∷ xs) h = absurd (omega arith)
drop_all (suc o) [] h = refl
drop_all (suc o) (x ∷ xs) h = drop_all o xs (omega arith)

-- The file got the bytes from `o` on, in pieces, at its path.
record IsStored (path buf : List ℕ) (o : ℕ) (files : List (List ℕ × List ℕ)) (s : Stored)
    : Type 0 where
  pub ends_at : s.buf_offset ≡ some (length buf)
  pub pieces : List (List ℕ)
  pub grown : s.files ≡ files ++ map (at_path path) pieces
  pub whole : joined pieces ≡ drop o buf

full-IsStored :
    (results : List (Option ℕ)) (path buf : List ℕ) (o : ℕ) (files : List (List ℕ × List ℕ))
    → length buf ≡ o
    → IsStored path buf o files (store_loop results path buf o files)
full-IsStored results path buf o files e =
    rw (store_full results path buf files o (omega arith)) (record {
      ends_at = ap some (sym e);
      pieces = [];
      grown = sym (append-nil files);
      whole = sym (drop_all o buf (omega arith));
    })

-- One call that takes `k` bytes, and what the calls after it do.
step-IsStored :
    (k : ℕ) (results : List (Option ℕ)) (path buf : List ℕ) (o : ℕ) (files : List (List ℕ × List ℕ))
    → length buf < 2 ^ 64
    → 0 < k
    → o + k ≤ length buf
    → IsStored path buf
        (o + k)
        (files ++ (path, take k (drop o buf)) ∷ [])
        (store_loop results path buf (o + k) (files ++ (path, take k (drop o buf)) ∷ []))
    → IsStored path buf o files (store_loop (some k ∷ results) path buf o files)
step-IsStored k results path buf o files small pos fits next =
    rw (store_step k results path buf o files small pos fits) (record {
      ends_at = next.ends_at;
      pieces = take k (drop o buf) ∷ next.pieces;
      grown =
          next.grown
          ∙ append_assoc files ((path, take k (drop o buf)) ∷ []) (map (at_path path) next.pieces);
      whole =
          ap (λ (t : List ℕ). take k (drop o buf) ++ t) (next.whole ∙ sym (drop-drop k o buf))
          ∙ take-append-drop k (drop o buf);
    })

last-IsStored :
    (path buf : List ℕ) (o : ℕ) (files : List (List ℕ × List ℕ))
    → o < length buf
    → IsStored path buf o files (store_loop [] path buf o files)
unfolding store_loop
last-IsStored path buf o files h = rw (lt→ltb o (length buf) h) (record {
  ends_at = refl;
  pieces = drop o buf ∷ [];
  grown = refl;
  whole = append-nil (drop o buf);
})

store_loop-IsStored :
    (results : List (Option ℕ)) (path buf : List ℕ) (o : ℕ) (files : List (List ℕ × List ℕ))
    → length buf < 2 ^ 64
    → o ≤ length buf
    → Progresses results (length buf - o)
    → IsStored path buf o files (store_loop results path buf o files)
store_loop-IsStored [] path buf o files small inside progress = elim (dec_lt o (length buf)) [
  | yes more ↦ last-IsStored path buf o files more
  | no over ↦ full-IsStored [] path buf o files (omega arith)
]
store_loop-IsStored (none ∷ results) path buf o files small inside progress =
    full-IsStored (none ∷ results) path buf o files (omega arith)
store_loop-IsStored (some k ∷ results) path buf o files small inside (inl over) =
    full-IsStored (some k ∷ results) path buf o files (omega arith)
store_loop-IsStored (some k ∷ results) path buf o files small inside (inr (pos, fits, later)) =
    step-IsStored k results path buf o files small pos (omega arith) (
      store_loop-IsStored results path buf (o + k) (files ++ (path, take k (drop o buf)) ∷ []) small
        (omega arith)
        (let e : length buf - (o + k) ≡ length buf - o - k = omega arith in rw e later))

-- Where each call of `write` takes some of the bytes that are left, however few, and none fails,
-- the file gets the whole buffer in order, and the loop ends at its length.
store_loop_stores :
    (results : List (Option ℕ)) (path buf : List ℕ) (files : List (List ℕ × List ℕ))
    → length buf < 2 ^ 64
    → Progresses results (length buf)
    → ((store_loop results path buf 0 files).buf_offset ≡ some (length buf))
      × ((pieces : List (List ℕ)) × ((store_loop results path buf 0 files).files
            ≡ files ++ map (at_path path) pieces)
          × (joined pieces ≡ buf))
store_loop_stores results path buf files small progress =
    let all : length buf - 0 ≡ length buf = omega arith in
    let s = store_loop-IsStored results path buf 0 files small (omega arith) (rw all progress) in
    (s.ends_at, (s.pieces, s.grown, s.whole))

-- A first call that fails is taken for one that wrote 2 ^ 64 - 1 bytes: the loop ends without
-- giving up, the file gets nothing, and the offset is far past the buffer.
pub store_loop_misses_failure :
    (results : List (Option ℕ)) (path buf : List ℕ) (files : List (List ℕ × List ℕ))
    → 0 < length buf
    → length buf < 2 ^ 64
    → store_loop (none ∷ results) path buf 0 files
      ≡ record { buf_offset = some (2 ^ 64 - 1); left = results; files = files ++ (path, []) ∷ [] }
store_loop_misses_failure results path buf files some_bytes small =
    first ∙ store_full results path buf (files ++ (path, []) ∷ []) (2 ^ 64 - 1) (omega arith)
  where
    first :
        store_loop (none ∷ results) path buf 0 files
        ≡ store_loop results path buf (2 ^ 64 - 1) (files ++ (path, []) ∷ [])
    first = unfold store_loop written_of stored_bytes in ground arith
