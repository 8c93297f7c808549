-- ===== src/Task/Handle.antt =====
-- Start and shutdown in src/swarmrt_task.c.
use swarmrt.Base.{ℕ, ◌-◌, ◌^◌, ◌≡◌, ◌≢◌, true, false, some, arith}
use swarmrt.Links.{World, add_link, drop_peer, drop_mon, find_mon, unlink, monitor, demonitor}
use swarmrt.Task.{async, is_live, unlink_child, release, kill_child, shutdown}

-- A start of a task followed by its shutdown, when the child has not ended and references are not
-- zero, leaves the links and the monitors of every process as they were before, delivers nothing,
-- marks the task as completed, and has killed the child with the reason -1.
pub shutdown-async :
    (child self : ℕ) (w : World)
    → child ≢ self
    → w.dead child ≡ false
    → w.next_ref ≢ 0
    → (let (t, w') = async (some child) self w in
        let (t', w'') = shutdown t self w' in
        (t'.completed ≡ true)
        × (w''.killed child ≡ true)
        × (w''.reason child ≡ 2 ^ 32 - 1)
        × ((x : ℕ) → w''.links x ≡ w.links x)
        × ((x : ℕ) → w''.watching x ≡ w.watching x)
        × ((x : ℕ) → w''.watched_by x ≡ w.watched_by x)
        × (w''.signals ≡ w.signals))
unfolding async monitor add_link shutdown is_live release unlink_child kill_child demonitor find_mon
    drop_mon unlink drop_peer
shutdown-async child self w differ alive ref = ground arith
