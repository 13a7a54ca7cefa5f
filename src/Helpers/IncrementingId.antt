-- ===== src/Helpers/IncrementingId.antt =====
-- `IncrementingId` of tophamm-helpers/src/lib.rs. All clones share one atomic counter, and
-- `fetch_add` is atomic, so that the calls stand in one order; the state is the counter.
use tophamm.Base.{ℕ, zero, suc, ◌+◌, ◌%◌, ◌<◌, ◌≡◌, ◌≢◌, refl, arith}

unfoldable pub new_id : ℕ
new_id = 0

-- `fetch_add(1)` returns the old value and wraps.
unfoldable pub next : ℕ → ℕ × ℕ
next counter = (counter, (counter + 1) % 256)

-- The state before a call that has `n` calls before it, and what that call returns.
counter_at : ℕ → ℕ
unfolding next new_id
counter_at zero = new_id
counter_at (suc n) = (next (counter_at n)).1

pub nth_id : ℕ → ℕ
unfolding counter_at
nth_id n = (next (counter_at n)).0

counter_at-mod : (n : ℕ) → counter_at n ≡ n % 256
unfolding counter_at
counter_at-mod zero = refl
counter_at-mod (suc n) = omega (arith, counter_at-mod n)

pub nth_id-mod : (n : ℕ) → nth_id n ≡ n % 256
unfolding nth_id
nth_id-mod n = omega (arith, counter_at-mod n)

-- Two calls with fewer than 256 calls from the first to the second do not return the same id, and
-- the call 256 calls later than one returns the same id as that one.
pub nth_id_lem :
    (m n : ℕ) → m < n → n < m + 256 → (nth_id m ≢ nth_id n) × (nth_id (n + 256) ≡ nth_id n)
nth_id_lem m n h k =
    (omega (arith, nth_id-mod m, nth_id-mod n), omega (arith, nth_id-mod (n + 256), nth_id-mod n))
