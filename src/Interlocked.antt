-- ===== src/Interlocked.antt =====
-- DotNetAnywhere/System.Threading.Interlocked.c: each native on the U32 at a location, with the value
-- that it returns and the value that it leaves there. Threads are green, so each runs as one step.
use iron_net.Prelude.{ℕ, ◌+◌, ◌^◌, ◌<◌, ◌≡◌, ◌≢◌, ◌==◌, if◌then◌else◌, u32, sub_u32, arith}

unfoldable pub compare_exchange : ℕ → ℕ → ℕ → ℕ × ℕ
compare_exchange loc value comparand = (loc, if loc == comparand then value else loc)

unfoldable pub increment : ℕ → ℕ × ℕ
increment loc = (u32 (loc + 1), u32 (loc + 1))

unfoldable pub decrement : ℕ → ℕ × ℕ
decrement loc = (sub_u32 loc 1, sub_u32 loc 1)

unfoldable pub interlocked_add : ℕ → ℕ → ℕ × ℕ
interlocked_add loc value = (u32 (loc + value), u32 (loc + value))

unfoldable pub exchange : ℕ → ℕ → ℕ × ℕ
exchange loc value = (loc, value)

-- Of two threads that run CompareExchange from the same comparand to values other than it, only the
-- first changes the location; the second gets the first one's value back.
compare_exchange-once :
    (loc v w : ℕ)
    → v ≢ loc
    → (compare_exchange loc v loc ≡ (loc, v))
      × (compare_exchange (compare_exchange loc v loc).1 w loc ≡ (v, v))
unfolding compare_exchange
compare_exchange-once loc v w h = (ground arith, ground arith)

-- Decrement takes back Increment, and Increment takes back Decrement, on every U32.
decrement-increment :
    (loc : ℕ)
    → loc < 2 ^ 32
    → ((decrement (increment loc).1).1 ≡ loc) × ((increment (decrement loc).1).1 ≡ loc)
unfolding decrement increment
decrement-increment loc h = (omega arith, omega arith)
