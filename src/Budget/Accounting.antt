-- ===== src/Budget/Accounting.antt =====
-- The counter is the sum of the reservations that are held, and stays within the limit.
use tauri_connector.Budget.Charges.{
  word, Thread, idle, charging, reserved, exhausted, MemoryBudget, new, idles, Event, enter,
  exchange, release, thread_at, enter_charge, exchange_round, drop_reservation, step, run,
}
use tauri_connector.Prelude.{
  ℕ, zero, suc, ◌+◌, ◌≤◌, ◌<◌, ◌≡◌, ◌≢◌, inl, inr, refl, ap, Bool, false, Option, none, some, List,
  [], ◌∷◌, arith, if◌then◌else◌, leb, Option-cases, get_elem?, set, get_elem?-set_self,
}

abbrev pub held_by : Thread → ℕ
held_by (reserved bytes) = bytes
held_by idle = 0
held_by (charging _ _) = 0
held_by exhausted = 0

unfoldable pub total : List Thread → ℕ
total [] = 0
total (t ∷ ts) = held_by t + total ts

-- The bytes in use are those of the reservations, and they fit.
pub record IsCharged (b : MemoryBudget) : Type 0 where
  pub counted : b.used ≡ total b.threads
  pub within : b.used ≤ b.limit
  pub fits : b.limit < word

abbrev thread_or_idle : Option Thread → Thread
thread_or_idle none = idle
thread_or_idle (some t) = t

total-set :
    (ts : List Thread) (i : ℕ) (t : Thread)
    → get_elem? ts i ≢ none
    → total (set ts i t) + held_by (thread_or_idle (get_elem? ts i)) ≡ total ts + held_by t
unfolding total
total-set [] i t h = absurd (h refl)
total-set (x ∷ ts) zero t h = omega arith
total-set (x ∷ ts) (suc i) t h = omega (arith, total-set ts i t h)

pub set_absent : (ts : List Thread) (i : ℕ) (t : Thread) → get_elem? ts i ≡ none → set ts i t ≡ ts
set_absent [] i t h = refl
set_absent (x ∷ ts) zero t h = cc
set_absent (x ∷ ts) (suc i) t h = ap (◌∷◌ x) (set_absent ts i t h)

held-le-total : (ts : List Thread) (i : ℕ) → held_by (thread_or_idle (get_elem? ts i)) ≤ total ts
unfolding total
held-le-total [] i = omega arith
held-le-total (x ∷ ts) zero = omega arith
held-le-total (x ∷ ts) (suc i) = omega (arith, held-le-total ts i)

-- the sum after thread `i` has moved from `t` to `u`
total-move :
    (b : MemoryBudget) (i : ℕ) (t u : Thread)
    → thread_at i b ≡ t
    → get_elem? b.threads i ≢ none
    → total (set b.threads i u) + held_by t ≡ total b.threads + held_by u
total-move b i t u e h = ground (arith, total-set b.threads i u h)

total_same :
    (b : MemoryBudget) (i : ℕ) (t u : Thread)
    → thread_at i b ≡ t
    → held_by t ≡ held_by u
    → total (set b.threads i u) ≡ total b.threads
total_same b i t u e same = elim (Option-cases (get_elem? b.threads i)) [
  | inl gone ↦ ap total (set_absent b.threads i u gone)
  | inr (x, there) ↦ omega (arith, same, total-move b i t u e (λ gone. cc))
]

enter-IsCharged :
    (i bytes : ℕ) (t : Thread) (b : MemoryBudget)
    → thread_at i b ≡ t
    → IsCharged b
    → IsCharged (enter_charge i bytes t b)
unfolding enter_charge
enter-IsCharged i bytes idle b e h = ground (arith, total_same b i idle (charging bytes b.used) e)
enter-IsCharged i bytes exhausted b e h =
    ground (arith, total_same b i exhausted (charging bytes b.used) e)
enter-IsCharged i bytes (charging _ _) b e h = h
enter-IsCharged i bytes (reserved _) b e h = h

there_of_charging :
    (b : MemoryBudget) (i : ℕ) (t : Thread)
    → thread_at i b ≡ t
    → t ≢ idle
    → get_elem? b.threads i ≢ none
there_of_charging b i t e h gone = h (ground arith)

exchange-IsCharged :
    (i : ℕ) (spurious : Bool) (t : Thread) (b : MemoryBudget)
    → thread_at i b ≡ t
    → IsCharged b
    → IsCharged (exchange_round i spurious t b)
unfolding exchange_round
exchange-IsCharged i spurious (charging bytes seen) b e h = ground (
  arith,
  total_same b i (charging bytes seen) exhausted e refl,
  total_same b i (charging bytes seen) (charging bytes b.used) e refl,
  total-move b i (charging bytes seen) (reserved bytes) e
      (there_of_charging b i (charging bytes seen) e (λ q. cc)),
)
exchange-IsCharged i spurious idle b e h = h
exchange-IsCharged i spurious (reserved _) b e h = h
exchange-IsCharged i spurious exhausted b e h = h

-- Dropping a reservation takes its bytes from the counter, which never wraps.
drop-IsCharged :
    (i : ℕ) (t : Thread) (b : MemoryBudget)
    → thread_at i b ≡ t
    → IsCharged b
    → IsCharged (drop_reservation i t b)
unfolding drop_reservation
drop-IsCharged i (reserved bytes) b e h = ground (
  arith,
  total-move b i (reserved bytes) idle e (there_of_charging b i (reserved bytes) e (λ q. cc)),
  held-le-total b.threads i,
)
drop-IsCharged i idle b e h = h
drop-IsCharged i (charging _ _) b e h = h
drop-IsCharged i exhausted b e h = h

pub step-IsCharged : (e : Event) (b : MemoryBudget) → IsCharged b → IsCharged (step e b)
unfolding step
step-IsCharged (enter i bytes) b h = enter-IsCharged i bytes (thread_at i b) b refl h
step-IsCharged (exchange i spurious) b h = exchange-IsCharged i spurious (thread_at i b) b refl h
step-IsCharged (release i) b h = drop-IsCharged i (thread_at i b) b refl h

-- From a budget that is charged with its reservations, however the threads interleave and whenever
-- exchanges fail, the counter stays the sum of the bytes that are reserved, and within the limit.
pub run-IsCharged : (es : List Event) (b : MemoryBudget) → IsCharged b → IsCharged (run es b)
unfolding run
run-IsCharged [] b h = h
run-IsCharged (e ∷ es) b h = run-IsCharged es (step e b) (step-IsCharged e b h)

total-idles : (n : ℕ) → total (idles n) ≡ 0
unfolding total
total-idles zero = refl
total-idles (suc n) = omega (arith, total-idles n)

-- A new budget is charged with nothing.
pub new-IsCharged : (limit n : ℕ) → limit < word → IsCharged (new limit n)
unfolding new
new-IsCharged limit n h = omega (arith, total-idles n)

-- From a budget that is charged with its reservations, dropping one takes exactly its bytes off
-- the counter.
pub release_lem :
    (i bytes : ℕ) (b : MemoryBudget)
    → IsCharged b
    → thread_at i b ≡ reserved bytes
    → (step (release i) b).used + bytes ≡ b.used
unfolding step drop_reservation
release_lem i bytes b h e = ground (arith, held-le-total b.threads i)

-- From a budget that is charged with its reservations, an idle thread's attempt that nobody
-- disturbs is granted exactly when its bytes fit beside those in use. It then charges those bytes,
-- and a refusal charges nothing.
pub charge_lem :
    (i bytes : ℕ) (b : MemoryBudget)
    → IsCharged b
    → get_elem? b.threads i ≡ some idle
    → ((step (exchange i false) (step (enter i bytes) b)).used
        ≡ (if leb (b.used + bytes) b.limit then b.used + bytes else b.used))
      × (thread_at i (step (exchange i false) (step (enter i bytes) b))
          ≡ (if leb (b.used + bytes) b.limit then reserved bytes else exhausted))
charge_lem i bytes b h e = rw entered (
    unfold exchange_round in
    ground (
      arith,
      get_elem?-set_self loaded.threads i (charging bytes b.used) (reserved bytes) there,
      get_elem?-set_self loaded.threads i (charging bytes b.used) exhausted there,
    ))
  where
    loaded : MemoryBudget
    loaded = record b { threads = set b.threads i (charging bytes b.used) }

    there : get_elem? loaded.threads i ≡ some (charging bytes b.used)
    there = get_elem?-set_self b.threads i idle (charging bytes b.used) e

    entered :
        step (exchange i false) (step (enter i bytes) b)
        ≡ exchange_round i false (charging bytes b.used) loaded
    entered = unfold step enter_charge in rw (e, step, enter_charge) (ground (arith, there))
