-- ===== src/Runtime/Thread/Notify.antt =====
-- Calls between events: the call that is dispatched, its completion's way back, and deletion.
use localsoftware.Common.{
  ℕ, ◌≡◌, ◌≢◌, refl, ◌∙◌, List, [], ◌∷◌, ◌++◌, append_assoc, none, some, get_elem?, set, arith, ap,
  Option-cases, inl, inr,
}
use localsoftware.Common.Int.{ℤ, pos}
use localsoftware.Common.Maps.{Map, lookup, erase, nat_eq, lookup-insert_self, lookup-erase}
use localsoftware.Runtime.Types.{
  CallerInfo, TargetInfo, EventInfo, Locator, QueuedFunction, EventType, CallStatus, Message,
  function_call, delete, child_task_completion, IoUringData, fresh_data, Result, ok, err, ◌>>=◌,
  nobody,
}
use localsoftware.Runtime.Event.{get_evinfo, global_to_local, map_event_data, translate_proc_local}
use localsoftware.Runtime.Event.Translate.{map_event_data-procedure, translate-global_to_local}
use localsoftware.Runtime.Balance.{find_target_thread}
use localsoftware.Runtime.State.{
  World, ChildInfo, push, object, context_of, set_context, get_proc_id,
}
use localsoftware.Runtime.Dispatch.{function_in, function_one, child_of, set_child}
use localsoftware.Runtime.Thread.{Code, deleted, delete_children, delete_object, data_received}
use localsoftware.Runtime.Order.Loops.{Grows, Extends, keeps, get_elem?-set-some}
use localsoftware.Runtime.Order.Handlers.{delete_children-Extends}

-- The state in which `function_one` sends the call.
abbrev prepared_call : {S : Type 0} → World S → ℕ → TargetInfo → QueuedFunction → Locator → World S
prepared_call w ctx ti f l =
    let (proc_id, w1) = get_proc_id w in
    let info = child_of (object w1 ti.obj_id) l.object_id in
    let w2 =
      set_child w1 ti.obj_id l.object_id
        (record { thread = w1.thread; procedures = proc_id ∷ info.procedures }) in
    set_context w2 ctx (global_to_local (context_of w2 ctx) proc_id f.local_id)

module _ {S : Type 0} where
  context_of-set_context :
      (w : World S) (ctx : ℕ) (d : IoUringData) → context_of (set_context w ctx d) ctx ≡ d
  context_of-set_context w ctx d =
      ap (λ o. elim o [ none ↦ fresh_data | some x ↦ x ]) (lookup-insert_self ctx d w.contexts)

  -- A queued call of a placed child, when a thread is chosen for it and exists, becomes one message at
  -- the end of that thread's queue, under a new identifier. A completion of that identifier then reaches
  -- the calling event with the local identifier that `c` gave it, which translates to the new one.
  pub function_one_lem :
      (w : World S) (ctx : ℕ) (ti : TargetInfo) (f : QueuedFunction) (e : EventInfo) (l : Locator)
      (t : ℕ) (q : List Message)
      → get_evinfo (context_of w ctx) f.idx f.vidx ≡ ok (some e)
      → e.locator ≡ some l
      → find_target_thread w.thread w.load_avg l.thread_id ≡ some t
      → get_elem? w.work t ≡ some q
      → let id = (get_proc_id w).0 in
        (w' : World S) × (function_one w ctx ti f ≡ ok w')
        × (w'.work
            ≡ set w.work t (
                q
                ++ function_call f.fun
                    (record { thread_id = pos w.thread; obj_id = ti.obj_id; proc_id = ti.proc_id })
                    (record { obj_id = l.object_id; proc_id = id })
                  ∷ []))
        × ((calling_id : ℕ) (status : CallStatus) (code : ℤ)
            → (map_event_data
                (context_of w' ctx)
                (child_task_completion calling_id id status code)).0
              ≡ child_task_completion calling_id f.local_id status code)
        × (translate_proc_local (context_of w' ctx) f.local_id ≡ id)
  unfolding function_one function_in get_proc_id push
  function_one_lem w ctx ti f e l t q he hl ht hq =
      let id = (get_proc_id w).0 in
      let w3 = prepared_call w ctx ti f l in
      let w1 = (get_proc_id w).1 in
      let m =
        function_call f.fun
          (record { thread_id = pos w.thread; obj_id = ti.obj_id; proc_id = ti.proc_id })
          (record { obj_id = l.object_id; proc_id = id }) in
      let w' = record w3 { work = set w.work t (q ++ m ∷ []) } in
      let d = context_of w ctx in
      let back : context_of w' ctx ≡ global_to_local d id f.local_id =
        context_of-set_context w ctx (global_to_local d id f.local_id) in
      (
        w',
        rw (he, hl, ht, hq),
        refl,
        (λ c s r.
            ap (λ x. (map_event_data x (child_task_completion c id s r)).0) back
            ∙ (ap (λ p. p.0) (map_event_data-procedure d id f.local_id c 0 0 s r).0)),
        ap (λ x. translate_proc_local x f.local_id) back
            ∙ (translate-global_to_local d id f.local_id).0,
      )

-- A queue that holds a message somewhere.
abbrev pub Holds : List (List Message) → ℕ → Message → Type 0
Holds work i m =
    (front : List Message) × (rest : List Message) × (get_elem? work i ≡ some (front ++ m ∷ rest))

Holds-mono :
    (v w : List (List Message)) (i : ℕ) (m : Message) → Grows v w → Holds v i m → Holds w i m
Holds-mono v w i m g (front, rest, e) =
    let (r, k) = g i _ e in (front, rest ++ r, k ∙ ap some (append_assoc front (m ∷ rest) r))

-- The children of an object are told, each on its thread.
abbrev pub AllTold : List (List Message) → CallerInfo → Map ℕ ChildInfo → Type 0
AllTold work ci [] = Unit {0}
AllTold work ci ((id, c) ∷ rest) =
    Holds work c.thread (delete ci (record { obj_id = id; proc_id = nobody }))
    × AllTold work ci rest

module _ {S : Type 0} (code : Code S) where
  pushed-Holds : (w u : World S) (i : ℕ) (m : Message) → push w i m ≡ ok u → Holds u.work i m
  unfolding push
  pushed-Holds w u i m h = elim (Option-cases (get_elem? w.work i)) [
    | inl e ↦ absurd (ground (arith, h, e))
    | inr (q, e) ↦
        let same : u.work ≡ set w.work i (q ++ m ∷ []) = ground (arith, h, e) in
        (q, [], rw same (get_elem?-set-some w.work i q (q ++ m ∷ []) e))
  ]

  Extends-ok : (w u : World S) (r : Result (World S)) → Extends w r → r ≡ ok u → Grows w.work u.work
  Extends-ok w u (ok x) (keeps g) e = let same : x.work ≡ u.work = ground arith in rw same at g
  Extends-ok w u (err f) g e = cc

  delete_children-AllTold :
      (w u : World S) (ci : CallerInfo) (children : Map ℕ ChildInfo)
      → delete_children code w ci children ≡ ok u
      → AllTold u.work ci children
  unfolding delete_children
  delete_children-AllTold w u ci [] h = tt
  delete_children-AllTold w u ci ((id, c) ∷ rest) h =
      go (push w c.thread m) refl h (λ v. delete_children-AllTold v u ci rest)
    where
      m : Message
      m = delete ci (record { obj_id = id; proc_id = nobody })

      go :
          (r : Result (World S))
          → push w c.thread (delete ci (record { obj_id = id; proc_id = nobody })) ≡ r
          → (r >>= λ v. delete_children code v ci rest) ≡ ok u
          → ((v : World S) → delete_children code v ci rest ≡ ok u → AllTold u.work ci rest)
          → AllTold u.work ci ((id, c) ∷ rest)
      go (ok v) e k all = (
        Holds-mono v.work u.work c.thread m
            (Extends-ok v u _ (delete_children-Extends code v ci rest) k)
            (pushed-Holds w v c.thread m e),
        all v k,
      )
      go (err f) e k all = cc

  -- Events for one object that are handled one after the other.
  unfoldable pub receive_all : World S → ℕ → List (CallerInfo × ℕ × EventType) → Result (World S)
  receive_all w obj [] = ok w
  receive_all w obj ((from, proc, event) ∷ events) = do
    w' ← data_received code w from (record { obj_id = obj; proc_id = proc }) event
    receive_all w' obj events

  push-obj_info :
      (w v : World S) (i : ℕ) (m : Message) → push w i m ≡ ok v → v.obj_info ≡ w.obj_info
  unfolding push
  push-obj_info w v i m h = elim (Option-cases (get_elem? w.work i)) [
    | inl e ↦ absurd (ground (arith, h, e))
    | inr (q, e) ↦ ground (arith, h, e)
  ]

  delete_children-obj_info :
      (w u : World S) (ci : CallerInfo) (children : Map ℕ ChildInfo)
      → delete_children code w ci children ≡ ok u
      → u.obj_info ≡ w.obj_info
  unfolding delete_children
  delete_children-obj_info w u ci [] h = ground (arith, h)
  delete_children-obj_info w u ci ((id, c) ∷ rest) h =
      go (push w c.thread (delete ci (record { obj_id = id; proc_id = nobody }))) refl h
        (λ v. delete_children-obj_info v u ci rest)
    where
      go :
          (r : Result (World S))
          → push w c.thread (delete ci (record { obj_id = id; proc_id = nobody })) ≡ r
          → (r >>= λ v. delete_children code v ci rest) ≡ ok u
          → ((v : World S) → delete_children code v ci rest ≡ ok u → u.obj_info ≡ v.obj_info)
          → u.obj_info ≡ w.obj_info
      go (ok v) e k all = all v k ∙ push-obj_info w v c.thread _ e
      go (err f) e k all = cc

  dropped_one :
      (w : World S) (obj proc : ℕ) (from : CallerInfo) (event : EventType)
      → lookup obj w.obj_info ≡ none
      → data_received code w from (record { obj_id = obj; proc_id = proc }) event ≡ ok w
  unfolding data_received
  dropped_one w obj proc from event gone = ground (arith, gone)

  dropped :
      (w : World S) (obj : ℕ) (events : List (CallerInfo × ℕ × EventType))
      → lookup obj w.obj_info ≡ none
      → receive_all w obj events ≡ ok w
  unfolding receive_all
  dropped w obj [] gone = refl
  dropped w obj ((from, proc, event) ∷ events) gone =
      rw (dropped_one w obj proc from event gone) (dropped w obj events gone)

  -- When `Delete` is handled without a fault, in the state that this leaves: a `Delete` for each of the
  -- object's children waits on the child's thread, on behalf of the same caller; the thread has no such
  -- object any more and has all its other objects as before; and any number of events for the object
  -- that are handled one after the other are dropped and change nothing.
  pub delete_object_lem :
      (w w' : World S) (ci : CallerInfo) (ti : TargetInfo)
      → delete_object code w ci ti ≡ ok w'
      → AllTold w'.work ci (object w ti.obj_id).children
        × (lookup ti.obj_id w'.obj_info ≡ none)
        × ((id : ℕ) → id ≢ ti.obj_id → lookup id w'.obj_info ≡ lookup id w.obj_info)
        × ((events : List (CallerInfo × ℕ × EventType)) → receive_all w' ti.obj_id events ≡ ok w')
  unfolding delete_object
  delete_object_lem w w' ci ti h =
      go (delete_children code w ci (object w ti.obj_id).children) refl h
    where
      go :
          (r : Result (World S))
          → delete_children code w ci (object w ti.obj_id).children ≡ r
          → (r >>= λ w1. deleted code w1 ti (object w ti.obj_id)) ≡ ok w'
          → AllTold w'.work ci (object w ti.obj_id).children
            × (lookup ti.obj_id w'.obj_info ≡ none)
            × ((id : ℕ) → id ≢ ti.obj_id → lookup id w'.obj_info ≡ lookup id w.obj_info)
            × ((events : List (CallerInfo × ℕ × EventType))
                → receive_all w' ti.obj_id events ≡ ok w')
      go (ok w1) e k =
          let works : w1.work ≡ w'.work = ground (arith, k) in
          let objs : w'.obj_info ≡ erase ti.obj_id w1.obj_info = ground (arith, k) in
          let gone : lookup ti.obj_id w'.obj_info ≡ none =
            rw objs (ground (arith, lookup-erase ti.obj_id ti.obj_id w1.obj_info)) in
          (
            rw (← works) (delete_children-AllTold w w1 ci _ e),
            gone,
            (λ id other. rw objs (
                ground (
                  arith,
                  lookup-erase ti.obj_id id w1.obj_info,
                  ap (lookup id) (delete_children-obj_info w w1 ci _ e),
                ))),
            λ events. dropped w' ti.obj_id events gone,
          )
      go (err f) e k = cc
