-- ===== src/Sahara/Run/Packets.antt =====
-- How `sahara_run` puts packets together, and which packets end it.
use mathlib.Core.List.{append_assoc, append-nil}
use qfenix.Common.{
  ℕ, zero, suc, ◌+◌, ◌-◌, ◌≤◌, ◌<◌, ◌≡◌, ◌≢◌, refl, arith, ap, sym, ◌∙◌, Bool, true, false, Option,
  some,
}
use qfenix.Common.{List, [], ◌∷◌, ◌++◌, map, length, take, ◌⊎◌}
use qfenix.Common.Words.{field_at}
use qfenix.Link.{Link, ok, assert, qdl_read}
use qfenix.Sahara.Image.{cmd_of, length_of, sahara_done, sahara_has_done_pending_quirk}
use qfenix.Sahara.Run.{has_packet, gather, buf_size, Job, dispatch, is_given}

-- Pieces that complete the packet in the buffer with the last of them, and fit the buffer.
abbrev pub Arrives : List ℕ → List (List ℕ) → Type 0
Arrives buf [] = has_packet buf ≡ true
Arrives buf (piece ∷ rest) =
    (has_packet buf ≡ false)
    × (0 < length piece)
    × (length buf + length piece ≤ buf_size)
    × Arrives (buf ++ piece) rest

take_all : (n : ℕ) (xs : List ℕ) → length xs ≤ n → take n xs ≡ xs
take_all zero [] h = refl
take_all zero (x ∷ xs) h = absurd (omega arith)
take_all (suc n) [] h = refl
take_all (suc n) (x ∷ xs) h = ap (λ (t : List ℕ). x ∷ t) (take_all n xs (omega arith))

qdl_read_next :
    (n : ℕ) (l : Link) (piece : List ℕ) (rest : List (Option (List ℕ)))
    → l.incoming ≡ some piece ∷ rest
    → length piece ≤ n
    → qdl_read n l ≡ (ok (some piece), record l { incoming = rest })
unfolding qdl_read
qdl_read_next n l piece rest e h = ground (arith, take_all n piece)

gather_done :
    (retries : ℕ) (sent : Bool) (buf : List ℕ) (l : Link)
    → has_packet buf ≡ true
    → gather retries sent buf l ≡ (ok buf, l)
unfolding gather
gather_done zero sent buf l h = refl
gather_done (suc retries) sent buf l h = ground arith

gather_piece :
    (retries : ℕ) (sent : Bool) (buf piece : List ℕ) (l : Link) (rest : List (Option (List ℕ)))
    → has_packet buf ≡ false
    → 0 < length piece
    → length buf + length piece ≤ buf_size
    → l.incoming ≡ some piece ∷ rest
    → gather (suc retries) sent buf l
      ≡ gather retries sent (buf ++ piece) (record l { incoming = rest })
unfolding gather
gather_piece retries sent buf piece l rest h pos fits e =
    ground (arith, qdl_read_next (buf_size - length buf) l piece rest e)

-- The pieces one after the other.
abbrev pub joined : List (List ℕ) → List ℕ
joined [] = []
joined (piece ∷ rest) = piece ++ joined rest

-- A packet that comes in pieces, one in each of at most as many reads as there are rounds left, is
-- put together behind what the buffer held: nothing is lost, nothing is sent, and the results of
-- the reads that follow are left for later.
pub gather-joined :
    (retries : ℕ) (sent : Bool) (buf : List ℕ) (pieces : List (List ℕ)) (l : Link)
    (rest : List (Option (List ℕ)))
    → length pieces ≤ retries
    → l.incoming ≡ map some pieces ++ rest
    → Arrives buf pieces
    → gather retries sent buf l ≡ (ok (buf ++ joined pieces), record l { incoming = rest })
gather-joined retries sent buf [] l rest h e arrives =
    gather_done retries sent buf l arrives
    ∙ (λ i. (ok (sym (append-nil buf) i), record l { incoming = e i }))
gather-joined zero sent buf (piece ∷ pieces) l rest h e arrives = absurd (omega arith)
gather-joined (suc retries) sent buf (piece ∷ pieces) l rest h e arrives =
    gather_piece retries sent buf piece l (map some pieces ++ rest) arrives.0 arrives.1 arrives.2 e
    ∙ gather-joined retries sent (buf ++ piece) pieces
        (record l { incoming = map some pieces ++ rest }) rest (omega arith) refl arrives.3
    ∙ ap (λ (t : List ℕ). (ok t, record l { incoming = rest }))
        (append_assoc buf piece (joined pieces))

-- `sahara_run` is done with a packet only if it is the device's DONE response, of the right length,
-- with a status other than pending or with the single-programmer quirk, or the response to a reset
-- during a memory dump.
pub dispatch_done :
    (job : Job) (pkt : List ℕ) (l : Link)
    → (dispatch job pkt l).0 ≡ ok true
    → ((cmd_of pkt ≡ 0x6)
        × (length_of pkt ≡ 0xc)
        × ((field_at 4 pkt 8 ≢ 0) ⊎ ((sahara_has_done_pending_quirk job.images l).0 ≡ ok true)))
      ⊎ ((cmd_of pkt ≡ 0x8) × (length_of pkt ≡ 0x8) × (is_given job.ramdump_path ≡ true))
unfolding dispatch sahara_done assert
dispatch_done job pkt l h = ground arith
