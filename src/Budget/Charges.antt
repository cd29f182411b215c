-- ===== src/Budget/Charges.antt =====
-- `MemoryBudget` and `Reservation` under contention. The counter is one atomic word. A thread in
-- `charge` holds the value that it last read; each event below is one atomic access of one thread,
-- so a list of events is an interleaving.
use tauri_connector.Prelude.{
  ℕ, zero, suc, ◌+◌, ◌-◌, ◌*◌, ◌%◌, ◌^◌, Bool, not, ◌&&◌, none, some, List, [], ◌∷◌, if◌then◌else◌,
  ltb, ◌==◌, get_elem?, set,
}

-- usize
abbrev pub word : ℕ
word = 2 ^ 64

-- DEFAULT_MEMORY_LIMIT_BYTES
abbrev pub default_limit : ℕ
default_limit = 64 * 1024 * 1024

-- Where a thread stands: outside of `charge`; in its loop, with the bytes that it asks for and the
-- counter as it last read it; past it, with a reservation or with the error `exhausted`.
pub data Thread : Type 0 where
  idle : Thread
  charging : ℕ → ℕ → Thread
  reserved : ℕ → Thread
  exhausted : Thread

pub record MemoryBudget : Type 0 where
  pub used : ℕ
  pub limit : ℕ
  pub threads : List Thread

abbrev pub idles : ℕ → List Thread
idles zero = []
idles (suc n) = idle ∷ idles n

-- `MemoryBudget::new(limit)`, with its clones in the hands of `n` threads
unfoldable pub new : ℕ → ℕ → MemoryBudget
new limit n = record { used = 0; limit = limit; threads = idles n }

pub data Event : Type 0 where
  -- thread i enters `try_reserve(bytes)` and reads the counter
  enter : ℕ → ℕ → Event
  -- thread i makes a round of the loop; a weak exchange may fail for no reason
  exchange : ℕ → Bool → Event
  -- thread i drops its reservation
  release : ℕ → Event

abbrev put : ℕ → Thread → MemoryBudget → MemoryBudget
put i t b = record b { threads = set b.threads i t }

unfoldable pub enter_charge : ℕ → ℕ → Thread → MemoryBudget → MemoryBudget
enter_charge i bytes idle b = put i (charging bytes b.used) b
enter_charge i bytes exhausted b = put i (charging bytes b.used) b
enter_charge i bytes (charging _ _) b = b
enter_charge i bytes (reserved _) b = b

-- one round of the loop in `charge`
unfoldable pub exchange_round : ℕ → Bool → Thread → MemoryBudget → MemoryBudget
exchange_round i spurious (charging bytes seen) b =
    if ltb (b.limit - seen) bytes
    then put i exhausted b
    else if b.used == seen && not spurious
    then record b { used = (seen + bytes) % word; threads = set b.threads i (reserved bytes) }
    else put i (charging bytes b.used) b
exchange_round i spurious idle b = b
exchange_round i spurious (reserved _) b = b
exchange_round i spurious exhausted b = b

-- `fetch_sub` wraps.
unfoldable pub drop_reservation : ℕ → Thread → MemoryBudget → MemoryBudget
drop_reservation i (reserved bytes) b = record b {
  used = (b.used + word - bytes) % word;
  threads = set b.threads i idle;
}
drop_reservation i idle b = b
drop_reservation i (charging _ _) b = b
drop_reservation i exhausted b = b

abbrev pub thread_at : ℕ → MemoryBudget → Thread
thread_at i b = elim (get_elem? b.threads i) [ none ↦ idle | some t ↦ t ]

unfoldable pub step : Event → MemoryBudget → MemoryBudget
unfolding enter_charge exchange_round drop_reservation
step (enter i bytes) b = enter_charge i bytes (thread_at i b) b
step (exchange i spurious) b = exchange_round i spurious (thread_at i b) b
step (release i) b = drop_reservation i (thread_at i b) b

unfoldable pub run : List Event → MemoryBudget → MemoryBudget
unfolding step new
run [] b = b
run (e ∷ es) b = run es (step e b)
