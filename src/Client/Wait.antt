-- ===== src/Client/Wait.antt =====
-- `_entrance_session_wait` of src/daemon/entrance.c: when it returns, and why.
use mathlib.Core.List.{Memᴰ}
use entrance.Client.{
  Tick, Waited, exited, running, echild, failed, WaitEnd, signalled, child_exited, proc_gone,
  wait_failed, still_waiting, poll_proc, wait_pid,
}
use entrance.Common.{◌≡◌, refl, ◌≢◌, Bool, true, false, List, [], ◌∷◌, ◌++◌, if◌then◌else◌, arith}

poll_proc-returns :
    (mid post : List Tick) (b : Tick)
    → b.in_proc ≡ false
    → poll_proc (mid ++ b ∷ post) ≢ still_waiting
unfolding poll_proc
poll_proc-returns [] post b h e = ground arith
poll_proc-returns (t ∷ mid) post b h e = let later = poll_proc-returns mid post b h in ground arith

poll_proc-append :
    (pre ticks : List Tick)
    → poll_proc ticks ≢ still_waiting
    → poll_proc (pre ++ ticks) ≢ still_waiting
unfolding poll_proc
poll_proc-append [] ticks n e = n e
poll_proc-append (t ∷ pre) ticks n e = let later = poll_proc-append pre ticks n in ground arith

wait_pid-not_running :
    (t : Tick) (ticks : List Tick)
    → t.waited ≢ running
    → poll_proc ticks ≢ still_waiting
    → wait_pid (t ∷ ticks) ≢ still_waiting
unfolding wait_pid
wait_pid-not_running t ticks n p e = by_waited t.waited refl
  where
    by_waited : (w : Waited) → t.waited ≡ w → ⊥
    by_waited running q = n q
    by_waited _ q = ground arith

-- The wait returns when, after any number of ticks, `waitpid` answers that the process does not run as
-- a child of the daemon any more, and at a later tick the process is not in /proc.
pub wait_pid-returns :
    (pre mid post : List Tick) (a b : Tick)
    → a.waited ≢ running
    → b.in_proc ≡ false
    → wait_pid (pre ++ (a ∷ (mid ++ b ∷ post))) ≢ still_waiting
unfolding wait_pid
wait_pid-returns [] mid post a b n h e =
    wait_pid-not_running a (mid ++ b ∷ post) n (poll_proc-returns mid post b h) e
wait_pid-returns (t ∷ pre) mid post a b n h e =
    let later = wait_pid-returns pre mid post a b n h in
    let polled =
      poll_proc-append pre (a ∷ (mid ++ b ∷ post)) (poll_proc-returns (a ∷ mid) post b h) in
    by_waited t.waited refl later polled
  where
    by_waited :
        (w : Waited)
        → t.waited ≡ w
        → wait_pid (pre ++ (a ∷ (mid ++ b ∷ post))) ≢ still_waiting
        → poll_proc (pre ++ (a ∷ (mid ++ b ∷ post))) ≢ still_waiting
        → ⊥
    by_waited _ q later polled = ground arith

-- What must have been seen for the wait to end as it did.
pub data Seen (ticks : List Tick) : WaitEnd → Type 0 where
  on_signal : (t : Tick) → Memᴰ t ticks → t.signal ≡ true → Seen ticks signalled
  on_exit : (t : Tick) → Memᴰ t ticks → t.waited ≡ exited → Seen ticks child_exited
  on_gone :
      (a b : Tick)
      → Memᴰ a ticks
      → a.waited ≡ echild
      → Memᴰ b ticks
      → b.in_proc ≡ false
      → Seen ticks proc_gone
  on_failure : (t : Tick) → Memᴰ t ticks → t.waited ≡ failed → Seen ticks wait_failed
  unended : Seen ticks still_waiting

later_Seen : (t : Tick) (ticks : List Tick) (e : WaitEnd) → Seen ticks e → Seen (t ∷ ticks) e
later_Seen t ticks e (on_signal u m q) = on_signal u (Memᴰ.tail m) q
later_Seen t ticks e (on_exit u m q) = on_exit u (Memᴰ.tail m) q
later_Seen t ticks e (on_gone a b m q n r) = on_gone a b (Memᴰ.tail m) q (Memᴰ.tail n) r
later_Seen t ticks e (on_failure u m q) = on_failure u (Memᴰ.tail m) q
later_Seen t ticks e unended = unended

poll_proc-Seen :
    (a : Tick) (ticks : List Tick) → a.waited ≡ echild → Seen (a ∷ ticks) (poll_proc ticks)
unfolding poll_proc
poll_proc-Seen a [] h = unended
poll_proc-Seen a (t ∷ ticks) h = go t.signal t.in_proc refl refl (poll_proc-Seen a ticks h)
  where
    go :
        (s p : Bool)
        → t.signal ≡ s
        → t.in_proc ≡ p
        → Seen (a ∷ ticks) (poll_proc ticks)
        → Seen (a ∷ t ∷ ticks) (if s then signalled else if p then poll_proc ticks else proc_gone)
    go true p e f k = on_signal t (Memᴰ.tail (Memᴰ.head refl)) e
    go false false e f k = on_gone a t (Memᴰ.head refl) h (Memᴰ.tail (Memᴰ.head refl)) f
    go false true e f k = swap (poll_proc ticks) k
      where
        insert : (u : Tick) → Memᴰ u (a ∷ ticks) → Memᴰ u (a ∷ t ∷ ticks)
        insert u (Memᴰ.head q) = Memᴰ.head q
        insert u (Memᴰ.tail m) = Memᴰ.tail (Memᴰ.tail m)

        swap : (w : WaitEnd) → Seen (a ∷ ticks) w → Seen (a ∷ t ∷ ticks) w
        swap w (on_signal u m q) = on_signal u (insert u m) q
        swap w (on_exit u m q) = on_exit u (insert u m) q
        swap w (on_gone b c m q n r) = on_gone b c (insert b m) q (insert c n) r
        swap w (on_failure u m q) = on_failure u (insert u m) q
        swap w unended = unended

-- The wait ends with a reason that was seen: a signal; the child's exit; a process that is not a child
-- of the daemon and was not in /proc; or a failure of `waitpid`.
pub wait_pid-Seen : (ticks : List Tick) → Seen ticks (wait_pid ticks)
unfolding wait_pid
wait_pid-Seen [] = unended
wait_pid-Seen (t ∷ ticks) = go t.signal t.waited refl refl (wait_pid-Seen ticks)
  where
    go :
        (s : Bool) (w : Waited)
        → t.signal ≡ s
        → t.waited ≡ w
        → Seen ticks (wait_pid ticks)
        → Seen (t ∷ ticks) (
            if s then signalled else elim w [
              | exited ↦ child_exited
              | running ↦ wait_pid ticks
              | echild ↦ poll_proc ticks
              | failed ↦ wait_failed
            ])
    go true w e f k = on_signal t (Memᴰ.head refl) e
    go false exited e f k = on_exit t (Memᴰ.head refl) f
    go false running e f k = later_Seen t ticks (wait_pid ticks) k
    go false echild e f k = poll_proc-Seen t ticks f
    go false failed e f k = on_failure t (Memᴰ.head refl) f
