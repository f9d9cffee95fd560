-- ===== src/Runtime/Thread/Calls.antt =====
-- How a call ends: what `function_call` and `data_received` record and whom they tell.
use localsoftware.Common.{
  ℕ, zero, suc, ◌^◌, ◌≤◌, ◌<◌, ◌≡◌, ◌≢◌, refl, Bool, true, false, List, [], ◌∷◌, ◌++◌, none, some,
  get_elem?, set, length, ltb, lt→ltb, if◌then◌else◌, arith, ap, ◌∙◌, Option-cases, inl, inr,
  Option, subst, sym,
}
use localsoftware.Common.Int.{ℤ, pos, negsuc}
use localsoftware.Common.Maps.{nat_eq, lookup, insert, lookup-insert}
use localsoftware.Runtime.Types.{
  CallerInfo, TargetInfo, CallResponse, running, degraded, Message, ok, err, undefined_behaviour,
  or_fault, CallStatus, failed, finished, Result, deliver, child_task_completion,
}
use localsoftware.Runtime.State.{
  World, CallData, push, call_of, no_call, set_call, call_of-set_call,
}
use localsoftware.Runtime.Thread.{
  Code, outcome, as_index, note_response, note_return, finish_call, report_yield,
}

get_elem?-lt {ℓ} : {A : Type ℓ} (v : List A) (i : ℕ) (x : A) → get_elem? v i ≡ some x → i < length v
get_elem?-lt [] i x h = cc
get_elem?-lt (y ∷ v) zero x h = omega arith
get_elem?-lt (y ∷ v) (suc i) x h = omega (arith, get_elem?-lt v i x h)

get_elem?-none {ℓ} : {A : Type ℓ} (v : List A) (i : ℕ) → get_elem? v i ≡ none → length v ≤ i
get_elem?-none [] i h = omega arith
get_elem?-none (y ∷ v) zero h = cc
get_elem?-none (y ∷ v) (suc i) h = omega (arith, get_elem?-none v i h)

get_elem?-ge {ℓ} : {A : Type ℓ} (v : List A) (i : ℕ) → length v ≤ i → get_elem? v i ≡ none
get_elem?-ge [] i h = refl
get_elem?-ge (y ∷ v) zero h = absurd (omega arith)
get_elem?-ge (y ∷ v) (suc i) h = get_elem?-ge v i (omega arith)

push_outside :
    {S : Type 0} (w : World S) (i : ℕ) (m : Message)
    → length w.work ≤ i
    → push w i m ≡ err undefined_behaviour
unfolding push
push_outside w i m h = rw (get_elem?-ge w.work i h)

module _ {S : Type 0} where
  -- The table of calls has a new entry for one procedure, with this status and, if it is given, this code.
  pub record Noted (w w' : World S) (proc : ℕ) (status : CallStatus) (code : ℤ) : Type 0 where
    pub status_noted : (call_of w' proc).status ≡ status
    pub code_noted : (call_of w' proc).return_code ≡ code
    pub back_kept : (call_of w' proc).back_notify ≡ (call_of w proc).back_notify
    pub others_kept : (p : ℕ) → p ≢ proc → call_of w' p ≡ call_of w p

  -- The completion of the call `ti`, for the procedure `ci` that made it.
  abbrev pub report : World S → CallerInfo → TargetInfo → CallStatus → ℤ → Message
  report w ci ti status code =
      deliver (record { thread_id = pos w.thread; obj_id = ti.obj_id; proc_id = ti.proc_id })
        (record { obj_id = ci.obj_id; proc_id = ci.proc_id })
        (child_task_completion ci.proc_id ti.proc_id status code)

  -- How a call ends that `finish_call` finishes.
  pub data Ended (w : World S) (ci : CallerInfo) (ti : TargetInfo) (resp : CallResponse)
      : Result (World S) → Type 0 where
    reported :
        (w' : World S) (q : List Message) (fail : Bool) (code : ℤ)
        → resp.ret ≡ some (fail, code)
        → get_elem? w.work (as_index ci.thread_id) ≡ some q
        → w'.work
          ≡ set w.work
              (as_index ci.thread_id)
              (q ++ report w ci ti (if fail then failed else finished) code ∷ [])
        → Noted w w' ti.proc_id (if fail then failed else finished) code
        → Ended w ci ti resp (ok w')
    unheard :
        (w' : World S) (fail : Bool) (code : ℤ)
        → resp.ret ≡ some (fail, code)
        → length w.work ≤ as_index ci.thread_id
        → w'.work ≡ w.work
        → Noted w w' ti.proc_id (if fail then failed else finished) code
        → Ended w ci ti resp (ok w')
    goes_on :
        (w' : World S)
        → resp.ret ≡ none
        → w'.work ≡ w.work
        → Noted w w' ti.proc_id
            (if resp.success then running else degraded)
            (call_of w ti.proc_id).return_code
        → Ended w ci ti resp (ok w')

  call_of-set_call_ne :
      (w : World S) (id p : ℕ) (c : CallData) → p ≢ id → call_of (set_call w id c) p ≡ call_of w p
  call_of-set_call_ne w id p c h =
      let same : lookup p (insert id c w.proc_to_dat) ≡ lookup p w.proc_to_dat =
        ground (arith, lookup-insert id p c w.proc_to_dat) in
      ap {A = Option CallData} (λ o. elim o [ none ↦ no_call | some d ↦ d ]) same

  Noted-set_call :
      (w : World S) (proc : ℕ) (c : CallData)
      → c.back_notify ≡ (call_of w proc).back_notify
      → Noted w (set_call w proc c) proc c.status c.return_code
  Noted-set_call w proc c b =
      let entry = call_of-set_call w proc c in
      record {
        status_noted = ap (λ c. c.status) entry;
        code_noted = ap (λ c. c.return_code) entry;
        back_kept = ap (λ c. c.back_notify) entry ∙ b;
        others_kept = λ p h. call_of-set_call_ne w proc p c h;
      }

  Noted-trans :
      {u v w : World S} {proc : ℕ} {s s' : CallStatus} {c c' : ℤ}
      → Noted u v proc s c
      → Noted v w proc s' c'
      → Noted u w proc s' c'
  Noted-trans a b = record {
    status_noted = b.status_noted;
    code_noted = b.code_noted;
    back_kept = b.back_kept ∙ a.back_kept;
    others_kept = λ p h. b.others_kept p h ∙ a.others_kept p h;
  }

  Noted-work :
      {u v : World S} {proc : ℕ} {s : CallStatus} {c : ℤ} (work : List (List Message))
      → Noted u v proc s c
      → Noted u (record v { work = work }) proc s c
  Noted-work work a = record {
    status_noted = a.status_noted;
    code_noted = a.code_noted;
    back_kept = a.back_kept;
    others_kept = a.others_kept;
  }

module _ {S : Type 0} (code : Code S) where
  -- When a called function has returned, `finish_call` does not fault. If the call is over, it is noted as
  -- finished, or as failed if it says so, with its code, and exactly one message is sent if the
  -- caller's thread exists: to that thread, from the called object, for the object and the procedure
  -- that made the call, a completion that names the call, its outcome and its code; if there is no such
  -- thread, nothing is sent. If the call goes on, nothing is sent, and it is noted as running, or as
  -- degraded if it did not start well. In each case no other call's entry changes, nor whom the call is
  -- to be reported to.
  pub finish_call-Ended :
      (w : World S) (ci : CallerInfo) (ti : TargetInfo) (resp : CallResponse)
      → Ended w ci ti resp (finish_call code w ci ti resp)
  unfolding finish_call push
  finish_call-Ended w ci ti resp =
      let v = note_response code w ti.proc_id resp in
      let first =
        Noted-set_call w ti.proc_id
          (record (call_of w ti.proc_id) {
            op_hint = resp.op_hint;
            status = if resp.success then running else degraded;
          })
          refl in
      elim (Option-cases resp.ret) [
        | inl r ↦
            let now : finish_call code w ci ti resp ≡ ok v = rw (r, finish_call) in
            subst (Ended w ci ti resp) (sym now) (goes_on v r refl first)
        | inr ((fail, ret), r) ↦
            let u = note_return code v ti.proc_id fail ret in
            let last = Noted-trans first (
              Noted-set_call v ti.proc_id
                (record (call_of v ti.proc_id) { status = outcome fail; return_code = ret })
                refl) in
            elim (Option-cases (get_elem? w.work (as_index ci.thread_id))) [
              | inl e ↦
                  let outside = get_elem?-none w.work (as_index ci.thread_id) e in
                  let over : ltb (as_index ci.thread_id) (length w.work) ≡ false = ground arith in
                  let now : finish_call code w ci ti resp ≡ ok u = rw (r, finish_call, over) refl in
                  subst (Ended w ci ti resp) (sym now) (unheard u fail ret r outside refl last)
              | inr (q, e) ↦
                  let inside : ltb (as_index ci.thread_id) (length w.work) ≡ true =
                    lt→ltb _ _ (get_elem?-lt w.work (as_index ci.thread_id) q e) in
                  let work =
                    set w.work (as_index ci.thread_id)
                      (q ++ report w ci ti (outcome fail) ret ∷ []) in
                  let now : finish_call code w ci ti resp ≡ ok (record u { work = work }) =
                    rw (r, finish_call, inside, e, or_fault) refl in
                  subst (Ended w ci ti resp) (sym now)
                    (reported _ q fail ret r e refl (Noted-work work last))
            ]
      ]

  -- When `on_yield` ends a procedure that was called from a negative thread not below -2 ^ 32, as that of
  -- a root event is, and there are fewer than 2 ^ 63 threads, then `data_received` pushes its completion
  -- out of the bounds of the vector of threads.
  report_yield_root :
      (w : World S) (ti : TargetInfo) (fail : Bool) (ret : ℤ) (n : ℕ)
      → (call_of w ti.proc_id).back_notify.thread_id ≡ negsuc n
      → n < 2 ^ 32
      → length w.work < 2 ^ 63
      → report_yield code w ti (some (fail, ret)) ≡ err undefined_behaviour
  unfolding report_yield
  report_yield_root w ti fail ret n b small h =
      let c : CallData = record (call_of w ti.proc_id) { status = outcome fail } in
      let w1 = set_call w ti.proc_id c in
      let from_root : (call_of w1 ti.proc_id).back_notify.thread_id ≡ negsuc n =
        ap (λ d. d.back_notify.thread_id) (call_of-set_call w ti.proc_id c) ∙ b in
      push_outside w1 (as_index (call_of w1 ti.proc_id).back_notify.thread_id) _
        (rw from_root (omega arith))
