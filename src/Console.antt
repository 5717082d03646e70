-- ===== src/Console.antt =====
-- kernel/console.c: the handler of an input character, which takes the lock of the console and ends.
use raynix.Base.{ℕ, ◌≡◌, ◌≢◌, refl, Option, none, some, ◌>>=◌}
use raynix.Spinlock.{SpinLock, Hart, push_inter_off, acquire}
use raynix.Spinlock.Lock.{acquire-free, acquire-held}

-- The lock and the characters of the console, and the hart that runs.
pub record Console : Type 0 where
  pub lock : SpinLock
  pub buf : ℕ → ℕ
  pub hart : Hart

unfoldable pub consloe_input_handler : ℕ → ℕ → Console → Option Console
consloe_input_handler id c s = do
  (lock, hart) ← acquire id (s.lock, s.hart)
  some (record s { lock = lock; hart = hart })

-- With the lock free a first call returns, and after it no call does, on any hart.
consloe_input_handler-once :
    (id c : ℕ) (s : Console)
    → s.lock ≢ 0
    → (s' : Console) × (consloe_input_handler id c s ≡ some s')
      × ((id' c' : ℕ) (h : Hart) → consloe_input_handler id' c' (record s' { hart = h }) ≡ none)
unfolding consloe_input_handler
consloe_input_handler-once id c s free = (
  record s { lock = 0; hart = push_inter_off id s.hart },
  rw (acquire-free id s.lock s.hart free) refl,
  λ id' c' h. rw (acquire-held id' h) refl,
)
