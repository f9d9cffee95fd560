-- ===== src/Runtime/Order/Loops.antt =====
-- The rules for `push` and for the loops of `process_queued`.
use localsoftware.Common.{
  ℕ, zero, suc, ◌≡◌, refl, inl, inr, Bool, true, false, List, [], ◌∷◌, ◌++◌, append-nil,
  append_assoc, Option, none, some, get_elem?, set, arith, ap, ◌∙◌, Option-cases, if◌then◌else◌,
  get_elem?-set_ne,
}
use native.Mathlib.Decide.{ℕ_discrete}
use localsoftware.Common.Maps.{lookup, nat_eq}
use localsoftware.Runtime.Types.{
  Message, Result, ok, err, ◌>>=◌, or_fault, TargetInfo, QueuedConstruct, QueuedFunction,
  QueuedUring, QueuedTimer, QueuedDelete, EventInfo, Fault, Attached, Timespec, invalid_argument,
}
use localsoftware.Runtime.Event.{Queues, translate_tim_local, get_evinfo}
use localsoftware.Runtime.State.{
  World, Request, TimerData, context_of, push, get_proc_id, get_obj_id, get_tim_id, put_sqe,
}
use localsoftware.Runtime.Dispatch.{
  target_of, construct_in, function_in, change_timer, add_timer, construct_one, function_one,
  uring_one, timer_one, delete_on, delete_one, attach_one, each, process_queued,
}

-- Every queue of the first state is the front of the same queue of the second.
abbrev pub Grows : List (List Message) → List (List Message) → Type 0
Grows v w =
    (i : ℕ) (q : List Message)
    → get_elem? v i ≡ some q
    → (r : List Message) × (get_elem? w i ≡ some (q ++ r))

-- A step that succeeds only adds at the ends of the queues.
pub data Extends {S : Type 0} (w : World S) : Result (World S) → Type 0 where
  keeps : {w' : World S} → Grows w.work w'.work → Extends w (ok w')
  faults : {e : Fault} → Extends w (err e)

pub Grows-refl : (v : List (List Message)) → Grows v v
Grows-refl v i q h = ([], rw append-nil h)

pub Grows-trans : (u v w : List (List Message)) → Grows u v → Grows v w → Grows u w
Grows-trans u v w f g i q h =
    let (r, e) = f i q h in
    let (s, k) = g i (q ++ r) e in (r ++ s, k ∙ ap some (append_assoc q r s))

pub get_elem?-set-some :
    (v : List (List Message)) (i : ℕ) (q q' : List Message)
    → get_elem? v i ≡ some q
    → get_elem? (set v i q') i ≡ some q'
get_elem?-set-some [] i q q' h = cc
get_elem?-set-some (x ∷ v) zero q q' h = refl
get_elem?-set-some (x ∷ v) (suc i) q q' h = get_elem?-set-some v i q q' h

pub Grows-set :
    (v : List (List Message)) (i : ℕ) (q r : List Message)
    → get_elem? v i ≡ some q
    → Grows v (set v i (q ++ r))
Grows-set v i q r h j p k = elim (ℕ_discrete i j) [
  | yes e ↦
      let same : p ≡ q = ground (arith, h, k, e) in
      (r, rw (← e, same) (get_elem?-set-some v i q (q ++ r) h))
  | no ne ↦ ([], rw append-nil (get_elem?-set_ne v (q ++ r) ne ∙ k))
]

module _ {S : Type 0} where
  pub push-Extends :
      (w v : World S) (i : ℕ) (m : Message) → v.work ≡ w.work → Extends w (push v i m)
  unfolding push
  push-Extends w v i m s = elim (Option-cases (get_elem? v.work i)) [
    | inl e ↦ rw (e, or_fault) faults
    | inr (q, e) ↦ rw (e, or_fault) (keeps (rw (← s) (Grows-set v.work i q (m ∷ []) e)))
  ]

  pub Extends-if :
      (w : World S) (b : Bool) (r s : Result (World S))
      → Extends w r
      → Extends w s
      → Extends w (if b then r else s)
  Extends-if w true r s h k = h
  Extends-if w false r s h k = k

  Extends-after :
      (w u : World S) (s : Result (World S)) → Grows w.work u.work → Extends u s → Extends w s
  Extends-after w u (ok x) g (keeps h) = keeps (Grows-trans w.work u.work x.work g h)
  Extends-after w u (err e) g h = faults

  pub Extends-bind :
      (w : World S) (r : Result (World S)) (f : World S → Result (World S))
      → Extends w r
      → ((u : World S) → Extends u (f u))
      → Extends w (r >>= f)
  Extends-bind w (ok u) f (keeps h) k = Extends-after w u (f u) h (k u)
  Extends-bind w (err e) f h k = faults

  -- A value computed first.
  pub Extends-let {ℓ} :
      {A : Type ℓ} (w : World S) (r : Result A) (f : A → Result (World S))
      → ((a : A) → Extends w (f a))
      → Extends w (r >>= f)
  Extends-let w (ok a) f k = k a
  Extends-let w (err e) f k = faults

  pub each-Extends {ℓ} :
      {A : Type ℓ} (body : World S → A → Result (World S)) (w : World S) (xs : List A)
      → ((u : World S) (x : A) → Extends u (body u x))
      → Extends w (each body w xs)
  unfolding each
  each-Extends body w [] h = keeps (Grows-refl w.work)
  each-Extends body w (x ∷ xs) h =
      Extends-bind w (body w x) (λ u. each body u xs) (h w x) (λ u. each-Extends body u xs h)

  Extends-or_fault :
      (w : World S) (o : Option (World S)) (e : Fault)
      → ((u : World S) → o ≡ some u → w.work ≡ u.work)
      → Extends w (or_fault o e)
  Extends-or_fault w none e h = faults
  Extends-or_fault w (some u) e h = keeps (rw (h u refl) (Grows-refl u.work))

  put_sqe-work :
      (w : World S) (r : Request) (a : Attached) (u : World S)
      → put_sqe w r a ≡ some u
      → w.work ≡ u.work
  unfolding put_sqe
  put_sqe-work w r a u h = ground arith

  construct_in-Extends :
      (w : World S) (ctx : ℕ) (ti : TargetInfo) (c : QueuedConstruct) (o : Option EventInfo)
      → Extends w (construct_in w ctx ti c o)
  unfolding construct_in get_obj_id
  construct_in-Extends w ctx ti c none = keeps (Grows-refl w.work)
  construct_in-Extends w ctx ti c (some e) =
      Extends-let w (target_of w []) _ λ t. push-Extends w _ _ _ refl

  construct_one-Extends :
      (w : World S) (ctx : ℕ) (ti : TargetInfo) (c : QueuedConstruct)
      → Extends w (construct_one w ctx ti c)
  unfolding construct_one
  construct_one-Extends w ctx ti c =
      Extends-let w (get_evinfo (context_of w ctx) c.idx c.vidx) _ (construct_in-Extends w ctx ti c)

  function_in-Extends :
      (w : World S) (ctx : ℕ) (ti : TargetInfo) (f : QueuedFunction) (o : Option EventInfo)
      → Extends w (function_in w ctx ti f o)
  unfolding function_in get_proc_id
  function_in-Extends w ctx ti f none = keeps (Grows-refl w.work)
  function_in-Extends w ctx ti f (some e) =
      Extends-let w (or_fault e.locator invalid_argument) _
        λ l. Extends-let w (target_of w l.thread_id) _ λ t. push-Extends w _ _ _ refl

  function_one-Extends :
      (w : World S) (ctx : ℕ) (ti : TargetInfo) (f : QueuedFunction)
      → Extends w (function_one w ctx ti f)
  unfolding function_one
  function_one-Extends w ctx ti f =
      Extends-let w (get_evinfo (context_of w ctx) f.idx f.vidx) _ (function_in-Extends w ctx ti f)

  uring_one-Extends :
      (w : World S) (ti : TargetInfo) (u : QueuedUring) → Extends w (ok (uring_one w ti u))
  unfolding uring_one put_sqe
  uring_one-Extends w ti u =
      let same : w.work ≡ (uring_one w ti u).work = ground arith in
      keeps (rw (← same) (Grows-refl w.work))

  change_timer-Extends :
      (w : World S) (id : ℕ) (old : TimerData) (time : Timespec)
      → Extends w (change_timer w id old time)
  unfolding change_timer
  change_timer-Extends w id old time =
      Extends-if w _ _ _ (Extends-or_fault w _ _ (λ u. put_sqe-work w _ _ u))
        (Extends-or_fault w _ _ (λ u. put_sqe-work _ _ _ u))

  add_timer-Extends :
      (w : World S) (ctx : ℕ) (ti : TargetInfo) (t : QueuedTimer) → Extends w (add_timer w ctx ti t)
  unfolding add_timer get_tim_id
  add_timer-Extends w ctx ti t = Extends-or_fault w _ _ (λ u. put_sqe-work _ _ _ u)

  timer_one-Extends :
      (w : World S) (ctx : ℕ) (ti : TargetInfo) (t : QueuedTimer) → Extends w (timer_one w ctx ti t)
  unfolding timer_one
  timer_one-Extends w ctx ti t =
      elim (Option-cases (lookup (translate_tim_local (context_of w ctx) t.local_id) w.timers)) [
        | inl e ↦ rw (e, timer_one) (add_timer-Extends w ctx ti t)
        | inr (old, e) ↦
            rw (e, timer_one)
              (change_timer-Extends w (translate_tim_local (context_of w ctx) t.local_id) old
                t.time)
      ]

  delete_on-Extends :
      (w : World S) (ti : TargetInfo) (obj_id : ℕ) (threads : List ℕ)
      → Extends w (delete_on w ti obj_id threads)
  unfolding delete_on
  delete_on-Extends w ti obj_id [] = keeps (Grows-refl w.work)
  delete_on-Extends w ti obj_id (id ∷ threads) =
      Extends-bind w (push w id _) _ (push-Extends w w id _ refl)
        (λ u. delete_on-Extends u ti obj_id threads)

  delete_one-Extends :
      (w : World S) (ti : TargetInfo) (d : QueuedDelete) → Extends w (delete_one w ti d)
  unfolding delete_one
  delete_one-Extends w ti d =
      Extends-bind w (delete_on w ti d.obj_id d.thread) _ (delete_on-Extends w ti d.obj_id d.thread)
        (λ u. keeps (Grows-refl u.work))

  attach_one-Extends :
      (w : World S) (ctx : ℕ) (ti : TargetInfo) (local : ℕ)
      → Extends w (ok (attach_one w ctx ti local))
  unfolding attach_one
  attach_one-Extends w ctx ti local = keeps (Grows-refl w.work)

  -- `process_queued` keeps every queue and adds at its end.
  pub process_queued-Extends :
      (w : World S) (q : Queues) (ctx : ℕ) (ti : TargetInfo) → Extends w (process_queued w q ctx ti)
  unfolding process_queued
  process_queued-Extends w q ctx ti =
      Extends-bind w (each (λ w c. construct_one w ctx ti c) w q.construct_) _
        (each-Extends _ w q.construct_ (λ u c. construct_one-Extends u ctx ti c))
        λ w1.
          Extends-bind w1 (each (λ w f. function_one w ctx ti f) w1 q.function_) _
            (each-Extends _ w1 q.function_ (λ u f. function_one-Extends u ctx ti f))
            λ w2.
              Extends-bind w2 (each (λ w u. ok (uring_one w ti u)) w2 q.uring_) _
                (each-Extends _ w2 q.uring_ (λ u x. uring_one-Extends u ti x))
                λ w3.
                  Extends-bind w3 (each (λ w t. timer_one w ctx ti t) w3 q.timer_) _
                    (each-Extends _ w3 q.timer_ (λ u t. timer_one-Extends u ctx ti t))
                    λ w4.
                      Extends-bind w4 (each (λ w d. delete_one w ti d) w4 q.delete_) _
                        (each-Extends _ w4 q.delete_ (λ u d. delete_one-Extends u ti d))
                        λ w5.
                          Extends-bind w5 (each (λ w a. ok (attach_one w ctx ti a)) w5 q.attach_) _
                            (each-Extends _ w5 q.attach_ (λ u a. attach_one-Extends u ctx ti a))
                            λ w6. keeps (Grows-refl w6.work)
