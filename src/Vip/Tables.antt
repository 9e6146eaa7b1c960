-- ===== src/Vip/Tables.antt =====
-- vip.c: opening the tables (vip_transfer_init) and closing them (vip_transfer_deinit).
use qfenix.Common.{
  ℕ, zero, suc, ◌+◌, ◌-◌, ◌<◌, ◌≤◌, ◌≡◌, refl, sym, ap, ◌∙◌, arith, Bool, true, false,
}
use qfenix.Common.{List, [], ◌∷◌, ◌++◌, length, take, ◌==◌, if◌then◌else◌}
use qfenix.Vip.{VipState, init, max_chained_files}
use mathlib.Core.List.{append_assoc, append-nil}

-- What `open` returns: a descriptor, or -1 with ENOENT or with another error.
pub data Opened : Type 0 where
  descriptor : ℕ → Opened
  no_entry refused : Opened

pub record VipTables : Type 0 where
  pub returned : Bool
  pub state : VipState
  pub signed_table_fd : Opened
  pub chained_fds : List ℕ
  pub closed : List Opened

unfoldable pub open_chained : (ℕ → Opened) → ℕ → ℕ → List ℕ → Bool × List ℕ
open_chained open_file zero i fds = (true, fds)
open_chained open_file (suc k) i fds = elim (open_file i) [
  | descriptor fd ↦ open_chained open_file k (suc i) (fds ++ fd ∷ [])
  | no_entry ↦ (true, fds)
  | refused ↦ (false, fds)
]

unfoldable pub is_zero : Opened → Bool
is_zero (descriptor fd) = fd == 0
is_zero no_entry = false
is_zero refused = false

unfoldable pub descriptors : List ℕ → List Opened
descriptors [] = []
descriptors (fd ∷ fds) = descriptor fd ∷ descriptors fds

unfoldable pub vip_transfer_deinit : VipTables → VipTables
vip_transfer_deinit t = record t {
  closed =
      t.closed ++ t.signed_table_fd ∷ descriptors (take (length t.chained_fds - 1) t.chained_fds);
}

-- The state is written only when all went well; until then it has the value `before`.
unfoldable pub vip_transfer_init : Opened → (ℕ → Opened) → VipState → VipTables
vip_transfer_init signed chained before =
    let opened = open_chained chained max_chained_files 0 [] in
    if is_zero signed
    then record {
      returned = false;
      state = before;
      signed_table_fd = signed;
      chained_fds = [];
      closed = [];
    }
    else if opened.0
    then record {
      returned = true;
      state = init;
      signed_table_fd = signed;
      chained_fds = opened.1;
      closed = [];
    }
    else vip_transfer_deinit record {
      returned = false;
      state = before;
      signed_table_fd = signed;
      chained_fds = opened.1;
      closed = [];
    }

-- The first `k` descriptors from file `i` on.
unfoldable pub run_of : (ℕ → ℕ) → ℕ → ℕ → List ℕ
run_of fd_of zero i = []
run_of fd_of (suc k) i = fd_of i ∷ run_of fd_of k (suc i)

open_chained-run :
    (open_file : ℕ → Opened) (fd_of : ℕ → ℕ) (k room i : ℕ) (fds : List ℕ)
    → ((j : ℕ) → i ≤ j → j < i + k → open_file j ≡ descriptor (fd_of j))
    → ((j : ℕ) → j ≡ i + k → open_file j ≡ no_entry)
    → k < room
    → open_chained open_file room i fds ≡ (true, fds ++ run_of fd_of k i)
unfolding open_chained run_of
open_chained-run open_file fd_of k zero i fds each last more = absurd (omega arith)
open_chained-run open_file fd_of zero (suc room) i fds each last more =
    rw (open_chained, last i (omega arith)) (λ t. (true, sym (append-nil fds) t))
open_chained-run open_file fd_of (suc k) (suc room) i fds each last more =
    rw (open_chained, each i (omega arith) (omega arith))
      (open_chained-run open_file fd_of k room (suc i) (fds ++ fd_of i ∷ [])
          (λ j h h'. each j (omega arith) (omega arith)) (λ j h. last j (omega (arith, h)))
          (omega arith)
        ∙ λ t. (true, append_assoc fds (fd_of i ∷ []) (run_of fd_of k (suc i)) t))

-- When files 0 to k - 1 open, file k is not there and k is below 32, opening succeeds with the k
-- descriptors in their order and the transfer is ready, whatever became of the signed table's file,
-- a failure to open it included, unless that got descriptor 0.
pub vip_transfer_init-opens :
    (signed : Opened) (open_file : ℕ → Opened) (fd_of : ℕ → ℕ) (k : ℕ) (before : VipState)
    → is_zero signed ≡ false
    → ((j : ℕ) → j < k → open_file j ≡ descriptor (fd_of j))
    → open_file k ≡ no_entry
    → k < max_chained_files
    → vip_transfer_init signed open_file before ≡ record {
      returned = true;
      state = init;
      signed_table_fd = signed;
      chained_fds = run_of fd_of k 0;
      closed = [];
    }
unfolding vip_transfer_init
vip_transfer_init-opens signed open_file fd_of k before zero_fd each last more =
    rw
      (
        zero_fd,
        open_chained-run open_file fd_of k max_chained_files 0 [] (λ j _ h. each j (omega arith))
            (λ j h. ap open_file (omega (arith, h)) ∙ last) more,
      )
      refl

length-run_of : (fd_of : ℕ → ℕ) (k i : ℕ) → length (run_of fd_of k i) ≡ k
unfolding run_of
length-run_of fd_of zero i = refl
length-run_of fd_of (suc k) i = ap suc (length-run_of fd_of k (suc i))

take-run_of : (fd_of : ℕ → ℕ) (k i : ℕ) → take k (run_of fd_of (suc k) i) ≡ run_of fd_of k i
unfolding run_of
take-run_of fd_of zero i = refl
take-run_of fd_of (suc k) i = ap (λ (t : List ℕ). fd_of i ∷ t) (take-run_of fd_of k (suc i))

all_but_last :
    (fd_of : ℕ → ℕ) (k : ℕ)
    → take (length (run_of fd_of (suc k) 0) - 1) (run_of fd_of (suc k) 0) ≡ run_of fd_of k 0
all_but_last fd_of k =
    ap (λ (n : ℕ). take n (run_of fd_of (suc k) 0)) (omega (arith, length-run_of fd_of (suc k) 0))
    ∙ take-run_of fd_of k 0

-- After k + 1 tables were opened, closing closes the signed table and the first k of them; the last
-- one stays open.
pub vip_transfer_deinit-leaks :
    (signed : Opened) (open_file : ℕ → Opened) (fd_of : ℕ → ℕ) (k : ℕ) (before : VipState)
    → is_zero signed ≡ false
    → ((j : ℕ) → j < suc k → open_file j ≡ descriptor (fd_of j))
    → open_file (suc k) ≡ no_entry
    → suc k < max_chained_files
    → (vip_transfer_deinit (vip_transfer_init signed open_file before)).closed
      ≡ signed ∷ descriptors (run_of fd_of k 0)
unfolding vip_transfer_deinit
vip_transfer_deinit-leaks signed open_file fd_of k before zero_fd each last more =
    rw (vip_transfer_init-opens signed open_file fd_of (suc k) before zero_fd each last more)
      (ap (λ (fds : List ℕ). signed ∷ descriptors fds) (all_but_last fd_of k))
