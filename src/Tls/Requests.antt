-- ===== src/Tls/Requests.antt =====
-- What the handlers ask of the plain socket.
use localsoftware.Common.{
  ℕ, ◌≤◌, ◌≡◌, refl, List, none, ltb, length, arith, Bool-cases, inl, inr, ◌⊎◌, Option-cases, ap,
  ◌∙◌, true, false, sym, subst,
}
use localsoftware.Runtime.Types.{
  FunctionFunc, QueuedFunction, IoUringData, Fault, out_of_range, runtime_error, Result, ok, err,
  ◌>>=◌,
}
use localsoftware.Common.Maps.{lookup, nat_eq}
use localsoftware.Runtime.Event.{Queues, call_first, call_at, attach, push_back, find_filled}
use localsoftware.Socket.Bytes.{Yield, minus}
use localsoftware.Tls.{
  ssl_error_want_read, Ssl, Child, Tls, State, TlsState, arm_read, arm_write, want_read,
  sizeof_pointer,
}

-- OpenSSL wants input only when its callback has given it all there was.
pub record Hungry {S : Type 0} (openssl : Ssl S) : Type 0 where
  pub accept_hungry :
      (s : S) (input : List ℕ)
      → (openssl.accept s input).2 ≡ ssl_error_want_read
      → length input ≤ (openssl.accept s input).1
  pub connect_hungry :
      (s : S) (input : List ℕ)
      → (openssl.connect s input).2 ≡ ssl_error_want_read
      → length input ≤ (openssl.connect s input).1
  pub read_hungry :
      (s : S) (input : List ℕ) (n : ℕ)
      → (openssl.read s input n).3 ≡ ssl_error_want_read
      → length input ≤ (openssl.read s input n).1
  pub write_hungry :
      (s : S) (input bytes : List ℕ)
      → (openssl.write s input bytes).3 ≡ ssl_error_want_read
      → length input ≤ (openssl.write s input bytes).1

-- The buffered bytes lie in the block.
abbrev pub Fits : {S : Type 0} → Tls S → Type 0
Fits t = t.e_read_s_ ≤ length t.e_read

-- Nothing was done to the read that is under way, if there is one, and nothing was put into the block.
pub record Kept {S : Type 0} (t0 t : Tls S) : Type 0 where
  pub same_flag : t.task_bytes_r_fin_ ≡ t0.task_bytes_r_fin_
  pub same_read : t.task_bytes_read_ ≡ t0.task_bytes_read_
  pub less_left : t.e_read_s_ ≤ t0.e_read_s_
  pub same_block : length t.e_read ≡ length t0.e_read
  pub fits : Fits t

-- At most one call was queued behind what was, by a socket that was in the state `t0`: a write, or a read into
-- the empty buffer for all of the space that the code allows for. No read was under way then, and now
-- that one is.
pub data Asked {S : Type 0} (child : Child) (keeps : Tls S → Type 0) (t0 : Tls S) (q : Queues)
    : Result (State S × Yield) → Type 0 where
  nothing :
      {t : Tls S} {q' : Queues} {d : IoUringData} {y : Yield}
      → q'.function_ ≡ q.function_
      → Kept t0 t
      → keeps t
      → Asked child keeps t0 q (ok ((t, q', d), y))
  a_write :
      {t : Tls S} {q' : Queues} {d : IoUringData} {y : Yield} (f : QueuedFunction) (bytes : List ℕ)
      → q'.function_ ≡ push_back q.function_ f
      → f.fun ≡ child.write bytes
      → Kept t0 t
      → keeps t
      → Asked child keeps t0 q (ok ((t, q', d), y))
  a_read :
      {t : Tls S} {q' : Queues} {d : IoUringData} {y : Yield} (f : QueuedFunction)
      → q'.function_ ≡ push_back q.function_ f
      → f.fun ≡ child.read sizeof_pointer
      → t0.task_bytes_r_fin_ ≡ true
      → t.task_bytes_r_fin_ ≡ false
      → t.task_bytes_read_ ≡ f.local_id
      → t.e_read_s_ ≡ 0
      → length t.e_read ≡ length t0.e_read
      → keeps t
      → Asked child keeps t0 q (ok ((t, q', d), y))
  fault : {e : Fault} → Asked child keeps t0 q (err e)

pub Kept-refl : {S : Type 0} (t : Tls S) → Fits t → Kept t t
Kept-refl t fits = record {
  same_flag = refl;
  same_read = refl;
  less_left = omega arith;
  same_block = refl;
  fits = fits;
}

pub Kept-trans : {S : Type 0} {t0 t1 t2 : Tls S} → Kept t0 t1 → Kept t1 t2 → Kept t0 t2
Kept-trans a b = record {
  same_flag = b.same_flag ∙ a.same_flag;
  same_read = b.same_read ∙ a.same_read;
  less_left = omega (arith, a.less_left, b.less_left);
  same_block = b.same_block ∙ a.same_block;
  fits = b.fits;
}

-- What holds of a later state holds of an earlier one.
pub since :
    {S : Type 0} {child : Child} {keeps : Tls S → Type 0} {t0 t1 : Tls S} {q : Queues}
    {r : Result (State S × Yield)}
    → Kept t0 t1
    → Asked child keeps t1 q r
    → Asked child keeps t0 q r
since a (nothing e b k) = nothing e (Kept-trans a b) k
since a (a_write f bytes e g b k) = a_write f bytes e g (Kept-trans a b) k
since a (a_read f e g free now id z block k) =
    a_read f e g (sym a.same_flag ∙ free) now id z (block ∙ a.same_block) k
since a fault = fault

abbrev pub with_none : {S : Type 0} → Result (State S) → Result (State S × Yield)
with_none r = do s ← r; ok (s, none)

module _ {S : Type 0} (openssl : Ssl S) (child : Child) where
  -- A call is queued with its closure, or there is no child.
  call_first_cases :
      (q : Queues) (d : IoUringData) (f : FunctionFunc)
      → ((q' : Queues) × (d' : IoUringData) × (id : ℕ) × (g : QueuedFunction) × (call_first q d
              child.class f
            ≡ ok (q', d', id))
          × (q'.function_ ≡ push_back q.function_ g)
          × (g.fun ≡ f)
          × (g.local_id ≡ id))
        ⊎ ((e : Fault) × (call_first q d child.class f ≡ err e))
  unfolding call_first call_at
  call_first_cases q d f = elim (Option-cases (lookup child.class d.sub_events)) [
    | inl e ↦ inr (out_of_range, rw e refl)
    | inr (v, e) ↦ elim (Option-cases (find_filled v)) [
      | inl k ↦ inr (runtime_error, rw (e, k) refl)
      | inr (i, k) ↦ inl (
        (call_at q d child.class i f).0,
        (call_at q d child.class i f).1,
        (call_at q d child.class i f).2,
        record { idx = child.class; vidx = i; local_id = d.local_proc_id; fun = f },
        rw (e, k) refl,
        refl,
        refl,
        refl,
      )
    ]
  ]

  Kept-block :
      (t : Tls S) {ssl : S} {id : ℕ}
      → Fits t
      → Kept t (record t { ssl = ssl; task_bytes_write_ = id; task_bytes_w_fin_ = false })
  Kept-block t fits = record {
    same_flag = refl;
    same_read = refl;
    less_left = omega arith;
    same_block = refl;
    fits = fits;
  }

  abbrev KeepsState : (TlsState → Type 0) → Tls S → Type 0
  KeepsState keeps t = keeps t.state_

  pub arm_write-Asked :
      (keeps : TlsState → Type 0) (s : State S)
      → keeps s.0.state_
      → Fits s.0
      → Asked child (KeepsState keeps) s.0 s.1 (with_none (arm_write openssl child s))
  unfolding arm_write attach
  arm_write-Asked keeps (t, q, d) k fits =
      let goal = λ (r : Result (State S)). Asked child (KeepsState keeps) t q (with_none r) in
      elim (Bool-cases t.task_bytes_w_fin_) [
        | inr e ↦
            let now : arm_write openssl child (t, q, d) ≡ ok (t, attach q t.task_bytes_write_, d) =
              rw e refl in
            subst goal (sym now) (nothing refl (Kept-refl t fits) k)
        | inl e ↦
            let (ssl', bytes) = openssl.bio_read t.ssl sizeof_pointer in
            elim (call_first_cases q d (child.write bytes)) [
              | inl (q', d', id, g, called, queued, fun, same) ↦
                  let t1 = record t {
                    ssl = ssl';
                    task_bytes_write_ = id;
                    task_bytes_w_fin_ = false;
                  } in
                  let now : arm_write openssl child (t, q, d) ≡ ok (t1, q', d') =
                    rw (e, called) refl in
                  subst goal (sym now) (a_write g bytes queued fun (Kept-block t fits) k)
              | inr (f, j) ↦
                  let now : arm_write openssl child (t, q, d) ≡ err f = rw (e, j) refl in
                  subst goal (sym now) fault
            ]
      ]

  pub arm_read-Asked :
      (keeps : TlsState → Type 0) (s : State S)
      → keeps s.0.state_
      → s.0.e_read_s_ ≡ 0
      → Asked child (KeepsState keeps) s.0 s.1 (with_none (arm_read openssl child s))
  unfolding arm_read attach
  arm_read-Asked keeps (t, q, d) k z =
      let goal = λ (r : Result (State S)). Asked child (KeepsState keeps) t q (with_none r) in
      elim (Bool-cases t.task_bytes_r_fin_) [
        | inr e ↦
            let now : arm_read openssl child (t, q, d) ≡ ok (t, attach q t.task_bytes_read_, d) =
              rw e refl in
            subst goal (sym now) (nothing refl (Kept-refl t (omega arith)) k)
        | inl e ↦
            let all : minus sizeof_pointer t.e_read_s_ ≡ sizeof_pointer = omega arith in
            elim (call_first_cases q d (child.read (minus sizeof_pointer t.e_read_s_))) [
              | inl (q', d', id, g, called, queued, fun, same) ↦
                  let t1 = record t { task_bytes_read_ = id; task_bytes_r_fin_ = false } in
                  let now : arm_read openssl child (t, q, d) ≡ ok (t1, q', d') =
                    rw (e, called) refl in
                  subst goal (sym now)
                    (a_read g queued (fun ∙ ap child.read all) e refl (sym same) z refl k)
              | inr (f, j) ↦
                  let now : arm_read openssl child (t, q, d) ≡ err f = rw (e, j) refl in
                  subst goal (sym now) fault
            ]
      ]

  pub want_read-Asked :
      (keeps : TlsState → Type 0) (s : State S)
      → keeps s.0.state_
      → s.0.e_read_s_ ≡ 0
      → Asked child (KeepsState keeps) s.0 s.1 (with_none (want_read openssl child s))
  unfolding want_read
  want_read-Asked keeps (t, q, d) k z = elim (Bool-cases (ltb 0 (openssl.pending t.ssl))) [
    | inl e ↦ rw e (arm_write-Asked keeps (t, q, d) k (omega arith))
    | inr e ↦ rw e (arm_read-Asked keeps (t, q, d) k z)
  ]
