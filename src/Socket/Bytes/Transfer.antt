-- ===== src/Socket/Bytes/Transfer.antt =====
-- A whole transfer: the requests for its parts, and its result.
use localsoftware.Common.{
  ℕ, ◌+◌, ◌-◌, ◌^◌, ◌≤◌, ◌<◌, ◌≡◌, refl, Bool, true, false, List, [], ◌∷◌, ◌++◌, map, none, some,
  arith,
}
use localsoftware.Common.Int.{ℤ, pos, leb_ℤ}
use localsoftware.Runtime.Types.{ok, io_uring_result}
use localsoftware.Runtime.Ids.{u64}
use localsoftware.Socket.Bytes.{
  Bytes, Io, recv, send, id_read, id_write, minus, read, write, prepare_read, prepare_write,
  on_yield, feed, Yield,
}

abbrev pub sum : List ℕ → ℕ
sum [] = 0
sum (n ∷ ns) = n + sum ns

abbrev pub Positive : List ℕ → Type 0
Positive [] = Unit {0}
Positive (n ∷ ns) = (1 ≤ n) × Positive ns

-- The requests that follow the parts: each begins where the parts so far end, and asks for the rest.
abbrev pub requests : (ℕ → ℕ → Io) → ℕ → ℕ → List ℕ → List Io
requests ask address left [] = []
requests ask address left (n ∷ []) = []
requests ask address left (n ∷ m ∷ ns) =
    ask (address + n) (left - n) ∷ requests ask (address + n) (left - n) (m ∷ ns)

-- A transfer under way.
abbrev Reading : Bytes → ℕ → ℕ → ℕ → Type 0
Reading s buf done left =
    (s.sticky_read ≡ true)
    × (s.read_buffer ≡ buf)
    × (s.read_total_processed ≡ done)
    × (s.read_bytes_left ≡ left)

abbrev read_on : Bytes → ℕ → Bytes
read_on s n = record s {
  read_bytes_left = minus s.read_bytes_left n;
  read_total_processed = u64 (s.read_total_processed + n);
}

read_last :
    (s : Bytes) (n : ℕ)
    → s.read_bytes_left ≡ n
    → s.read_total_processed + n < 2 ^ 31
    → 1 ≤ n
    → on_yield s (io_uring_result 0 id_read (pos n))
      ≡ ok (read_on s n, [], some (false, pos (s.read_total_processed + n)))
unfolding on_yield prepare_read
read_last s n e small one = ground arith

read_more :
    (s : Bytes) (n : ℕ)
    → s.sticky_read ≡ true
    → 1 ≤ n
    → n < s.read_bytes_left
    → s.read_total_processed + s.read_bytes_left < 2 ^ 31
    → on_yield s (io_uring_result 0 id_read (pos n))
      ≡ ok (
        read_on s n,
        recv s.fd (s.read_buffer + (s.read_total_processed + n)) (s.read_bytes_left - n) ∷ [],
        none,
      )
unfolding on_yield prepare_read
read_more s n sticky one less small = ground arith

-- What `feed` makes of a step that goes on.
feed_more :
    (s s1 s' : Bytes) (op : ℕ) (io ios : List Io) (n : ℤ) (ns : List ℤ) (y : Yield)
    → on_yield s (io_uring_result 0 op n) ≡ ok (s1, io, none)
    → feed s1 op ns ≡ ok (s', ios, y)
    → feed s op (n ∷ ns) ≡ ok (s', io ++ ios, y)
unfolding feed
feed_more s s1 s' op io ios n ns y h k = rw (h, k)

feed_last :
    (s s1 : Bytes) (op : ℕ) (io : List Io) (n : ℤ) (ns : List ℤ) (r : Bool × ℤ)
    → on_yield s (io_uring_result 0 op n) ≡ ok (s1, io, some r)
    → feed s op (n ∷ ns) ≡ ok (s1, io, some r)
unfolding feed
feed_last s s1 op io n ns r h = rw h

read_from :
    (s : Bytes) (n : ℕ) (ns : List ℕ) (address done left : ℕ)
    → s.sticky_read ≡ true
    → Positive (n ∷ ns)
    → s.read_bytes_left ≡ left
    → left ≡ sum (n ∷ ns)
    → s.read_total_processed ≡ done
    → s.read_buffer + done ≡ address
    → done + left < 2 ^ 31
    → (s' : Bytes) × (feed s id_read (map pos (n ∷ ns))
        ≡ ok (s', requests (recv s.fd) address left (n ∷ ns), some (false, pos (done + left))))
read_from s n [] address done left sticky p l e d a small =
    let whole : s.read_total_processed + n ≡ done + left = omega arith in
    (
      read_on s n,
      feed_last s (read_on s n) id_read [] (pos n) [] (false, pos (done + left))
          (rw (← whole) (read_last s n (omega arith) (omega arith) p.0)),
    )
read_from s n (m ∷ ns) address done left sticky p l e d a small =
    let next = read_on s n in
    let after : next.read_bytes_left ≡ left - n = omega (arith, p.1.0) in
    let so_far : next.read_total_processed ≡ done + n = omega arith in
    let end : done + n + (left - n) ≡ done + left = omega arith in
    let here : s.read_buffer + (s.read_total_processed + n) ≡ address + n = omega arith in
    let (s', k) =
      read_from next m ns (address + n) (done + n) (left - n) sticky p.1 after (omega arith) so_far
        (omega arith) (omega arith) in
    (
      s',
      feed_more s next s' id_read (recv s.fd (address + n) (left - n) ∷ []) _ (pos n)
          (map pos (m ∷ ns)) _
          (rw (← here, ← l) (read_more s n sticky p.0 (omega (arith, p.1.0)) (omega arith)))
          (rw (← end) k),
    )

-- Reading with `read_all` into a buffer of `len` bytes: whatever positive parts of `len` the kernel
-- delivers, each further request begins where the bytes so far end and asks for exactly the rest, and
-- the procedure ends with the last part, without an error and with the result `len`. Here `len` is
-- below 2 ^ 31.
pub read_all_lem :
    (s : Bytes) (buf n : ℕ) (ns : List ℕ)
    → Positive (n ∷ ns)
    → sum (n ∷ ns) < 2 ^ 31
    → let len = sum (n ∷ ns) in
      (s' : Bytes) × (feed (read s buf len true).0 id_read (map pos (n ∷ ns))
        ≡ ok (s', requests (recv s.fd) buf len (n ∷ ns), some (false, pos len)))
unfolding read
read_all_lem s buf n ns p small =
    let e : 0 + sum (n ∷ ns) ≡ sum (n ∷ ns) = omega arith in
    rw e at (
      read_from (read s buf (sum (n ∷ ns)) true).0 n ns buf 0 (sum (n ∷ ns)) refl p refl refl refl
        (omega arith) (omega arith))

-- The same for a write, which always goes on to the end.
abbrev write_on : Bytes → ℕ → Bytes
write_on s n = record s {
  write_bytes_left = minus s.write_bytes_left n;
  write_total_processed = u64 (s.write_total_processed + n);
}

write_last :
    (s : Bytes) (n : ℕ)
    → s.write_bytes_left ≡ n
    → s.write_total_processed + n < 2 ^ 31
    → 1 ≤ n
    → on_yield s (io_uring_result 0 id_write (pos n))
      ≡ ok (write_on s n, [], some (false, pos (s.write_total_processed + n)))
unfolding on_yield prepare_write
write_last s n e small one = ground arith

write_more :
    (s : Bytes) (n : ℕ)
    → 1 ≤ n
    → n < s.write_bytes_left
    → s.write_total_processed + s.write_bytes_left < 2 ^ 31
    → on_yield s (io_uring_result 0 id_write (pos n))
      ≡ ok (
        write_on s n,
        send s.fd (s.write_buffer + (s.write_total_processed + n)) (s.write_bytes_left - n) ∷ [],
        none,
      )
unfolding on_yield prepare_write
write_more s n one less small = ground arith

write_from :
    (s : Bytes) (n : ℕ) (ns : List ℕ) (address done left : ℕ)
    → Positive (n ∷ ns)
    → s.write_bytes_left ≡ left
    → left ≡ sum (n ∷ ns)
    → s.write_total_processed ≡ done
    → s.write_buffer + done ≡ address
    → done + left < 2 ^ 31
    → (s' : Bytes) × (feed s id_write (map pos (n ∷ ns))
        ≡ ok (s', requests (send s.fd) address left (n ∷ ns), some (false, pos (done + left))))
write_from s n [] address done left p l e d a small =
    let whole : s.write_total_processed + n ≡ done + left = omega arith in
    (
      write_on s n,
      feed_last s (write_on s n) id_write [] (pos n) [] (false, pos (done + left))
          (rw (← whole) (write_last s n (omega arith) (omega arith) p.0)),
    )
write_from s n (m ∷ ns) address done left p l e d a small =
    let next = write_on s n in
    let after : next.write_bytes_left ≡ left - n = omega (arith, p.1.0) in
    let so_far : next.write_total_processed ≡ done + n = omega arith in
    let end : done + n + (left - n) ≡ done + left = omega arith in
    let here : s.write_buffer + (s.write_total_processed + n) ≡ address + n = omega arith in
    let (s', k) =
      write_from next m ns (address + n) (done + n) (left - n) p.1 after (omega arith) so_far
        (omega arith) (omega arith) in
    (
      s',
      feed_more s next s' id_write (send s.fd (address + n) (left - n) ∷ []) _ (pos n)
          (map pos (m ∷ ns)) _
          (rw (← here, ← l) (write_more s n p.0 (omega (arith, p.1.0)) (omega arith)))
          (rw (← end) k),
    )

-- Writing a buffer of `len` bytes: whatever positive parts of `len` the kernel takes, each further
-- request begins where the bytes so far end and offers exactly the rest, and the procedure ends with
-- the last part, without an error and with the result `len`. Here `len` is below 2 ^ 31.
write_lem :
    (s : Bytes) (buf n : ℕ) (ns : List ℕ)
    → Positive (n ∷ ns)
    → sum (n ∷ ns) < 2 ^ 31
    → let len = sum (n ∷ ns) in
      (s' : Bytes) × (feed (write s buf len).0 id_write (map pos (n ∷ ns))
        ≡ ok (s', requests (send s.fd) buf len (n ∷ ns), some (false, pos len)))
unfolding write
write_lem s buf n ns p small =
    let e : 0 + sum (n ∷ ns) ≡ sum (n ∷ ns) = omega arith in
    rw e at (
      write_from (write s buf (sum (n ∷ ns))).0 n ns buf 0 (sum (n ∷ ns)) p refl refl refl
        (omega arith) (omega arith))

-- A transfer that the kernel ends in the middle, with an error or the end of the stream, fails with
-- the kernel's result and asks for nothing more: a read of `len` bytes, fewer than 2 ^ 31, after one
-- positive part.
read_failed :
    (s : Bytes) (buf len n : ℕ) (res : ℤ)
    → 1 ≤ n
    → n < len
    → len < 2 ^ 31
    → leb_ℤ res (pos 0) ≡ true
    → (s' : Bytes) × (feed (read s buf len true).0 id_read (pos n ∷ res ∷ [])
        ≡ ok (s', recv s.fd (buf + n) (len - n) ∷ [], some (true, res)))
unfolding read on_yield
read_failed s buf len n res one less small bad =
    let start = (read s buf len true).0 in
    let here : buf + (0 + n) ≡ buf + n = omega arith in
    (
      read_on start n,
      feed_more start (read_on start n) (read_on start n) id_read
          (recv s.fd (buf + n) (len - n) ∷ []) [] (pos n) (res ∷ []) _
          (rw (← here) (read_more start n refl one less (omega arith)))
          (feed_last (read_on start n) (read_on start n) id_read [] res [] (true, res) (rw bad)),
    )
