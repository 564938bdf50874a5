-- ===== src/Timer/Queue.antt =====
-- The representation invariant of the timer queue.
use kalinote_os.Base.{ℕ, ◌-◌, ◌^◌, ◌<◌, ◌≡◌, List, [], ◌∷◌, ◌∉◌, Distinct, All, ◌==◌, if◌then◌else◌}
use kalinote_os.Chain.{Chain}
use kalinote_os.Ordered.{Ascending}
use kalinote_os.Timer.{Timers, timer_list_last}

abbrev pub remove : ℕ → List ℕ → List ℕ
remove t [] = []
remove t (x ∷ xs) = if x == t then xs else x ∷ remove t xs

-- The queue holds the timers `ts`, in order of deadline, in front of the sentinel.
pub record IsQueue (s : Timers) (ts : List ℕ) : Type 0 where
  pub chain : Chain s.next_timer s.head ts timer_list_last
  pub distinct : Distinct ts
  pub no_last : timer_list_last ∉ ts
  pub no_null : 0 ∉ ts
  pub ascending : Ascending s.expire_jiffies 0 ts
  pub below : All (λ t. s.expire_jiffies t < 2 ^ 64) ts
  pub last_never : s.expire_jiffies timer_list_last ≡ 2 ^ 64 - 1
