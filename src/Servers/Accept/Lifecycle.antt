-- ===== src/Servers/Accept/Lifecycle.antt =====
-- A connection from its acceptance to its end.
use localsoftware.Common.{
  ℕ, ◌≡◌, ◌≢◌, refl, true, false, [], ◌∷◌, ◌++◌, none, some, if◌then◌else◌, ◌==◌, arith,
}
use localsoftware.Common.Int.{ℤ, pos, negsuc, leb_ℤ}
use localsoftware.Common.Maps.{Map, lookup, insert, erase, nat_eq, lookup-insert_self, lookup-erase}
use localsoftware.Runtime.Types.{
  EventInfo, Locator, QueuedUring, IoUringData, CallStatus, child_task_completion, io_uring_result,
  ok,
}
use localsoftware.Runtime.Event.{Queues, construct, call_at, call_uring, subscript}
use localsoftware.Runtime.Event.Slots.{
  child, emptied, destroy-construct, Constructed, construct-Constructed,
}
use localsoftware.Servers.Accept.{
  Service, Acceptor, queue_accept, take_connection, accepted, landing_on_yield, monitor_on_yield,
}

non_negative : (n : ℕ) → leb_ℤ (pos 0) (pos n) ≡ true
non_negative n = ground arith

negative : (n : ℕ) → leb_ℤ (pos 0) (negsuc n) ≡ false
negative n = ground arith

module _ (service : Service) where
  -- A connection that the kernel accepted is constructed in the lowest free slot, which it fills, all other
  -- slots staying as they were: exactly its construction is queued, and it is not shared. It is started
  -- there: exactly one call and one operation are added, the call of `start`, under the identifier that
  -- is noted with the slot, and the next accept on the same socket. An error adds the next accept only.
  pub accepted_lem :
      (a : Acceptor) (q : Queues) (d : IoUringData) (calling op fd code : ℕ)
      → let idx = (construct q d a.own service.class (service.connection fd) false).2 in
        let next : QueuedUring = record {
          op = op;
          fun = service.accept op (if op == 0 then a.ipv4 else a.ipv6);
        } in
        ((a' : Acceptor) × (q' : Queues) × (d' : IoUringData) × (landing_on_yield service a q d
              (io_uring_result calling op (pos fd))
            ≡ ok (a', q', d'))
          × Constructed q d a.own service.class (service.connection fd) false q' d' idx
          × (q'.function_
              ≡ q.function_
                ++ record {
                  idx = service.class;
                  vidx = idx;
                  local_id = d.local_proc_id;
                  fun = service.start;
                }
                  ∷ [])
          × (q'.uring_ ≡ q.uring_ ++ next ∷ [])
          × (lookup d.local_proc_id a'.indices ≡ some idx))
        × (landing_on_yield service a q d (io_uring_result calling op (negsuc code))
            ≡ ok (a, record q { uring_ = q.uring_ ++ next ∷ [] }, d))
  unfolding landing_on_yield accepted take_connection queue_accept construct call_at call_uring
  accepted_lem a q d calling op fd code =
      let (q1, d1, idx) = construct q d a.own service.class (service.connection fd) false in
      let (q2, d2, taskid) = call_at q1 d1 service.class idx service.start in
      let a' : Acceptor = record a { indices = insert d.local_proc_id idx a.indices } in
      let c = construct-Constructed q d a.own service.class (service.connection fd) false in
      (
        (
          a',
          queue_accept service a' q2 op,
          d2,
          rw (non_negative fd) refl,
          record {
            was_empty = c.was_empty;
            lower_filled = c.lower_filled;
            now_filled = c.now_filled;
            others = c.others;
            other_types = c.other_types;
            queued = c.queued;
          },
          refl,
          refl,
          lookup-insert_self d.local_proc_id idx a.indices,
        ),
        rw (negative code) refl,
      )

  subscript-some : (m : Map ℕ ℕ) (k v : ℕ) → lookup k m ≡ some v → subscript m k ≡ (v, m)
  unfolding subscript
  subscript-some m k v h = rw (h, subscript) refl

  -- When the procedure of a connection whose place is known ends, its child is destroyed, and no other:
  -- its deletion is queued on its threads and its slot becomes empty. `LandingAccept` forgets the
  -- identifier, and `BandwidthMonitorAccept` keeps it.
  pub closed_lem :
      (a : Acceptor) (q : Queues) (d : IoUringData) (calling task idx : ℕ) (status : CallStatus)
      (code : ℤ) (e : EventInfo) (l : Locator)
      → lookup task a.indices ≡ some idx
      → child d service.class idx ≡ some e
      → e.locator ≡ some l
      → let gone = record q {
        delete_ = q.delete_ ++ record { thread = l.thread_id; obj_id = l.object_id } ∷ [];
      } in
        let event = child_task_completion calling task status code in
        ((a' : Acceptor) × (landing_on_yield service a q d event
            ≡ ok (a', gone, emptied d service.class idx))
          × (lookup task a'.indices ≡ none))
        × (monitor_on_yield service a q d event ≡ ok (a, gone, emptied d service.class idx))
        × (child (emptied d service.class idx) service.class idx ≡ none)
        × ((i : ℕ)
            → i ≢ idx
            → child (emptied d service.class idx) service.class i ≡ child d service.class i)
  unfolding landing_on_yield monitor_on_yield
  closed_lem a q d calling task idx status code e l h c p =
      let (destroyed, empty, others, _) = destroy-construct q d service.class idx e l c p in
      let found = subscript-some a.indices task idx h in
      (
        (
          record a { indices = erase task a.indices },
          rw (found, destroyed) refl,
          ground (arith, lookup-erase task task a.indices),
        ),
        rw (found, destroyed) refl,
        empty,
        others,
      )
