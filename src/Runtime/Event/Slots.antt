-- ===== src/Runtime/Event/Slots.antt =====
-- The slots in which an event keeps its children: `construct`, `d` and the search of `c`.
use localsoftware.Common.{
  ℕ, zero, suc, ◌+◌, ◌≤◌, ◌<◌, ◌≡◌, ◌≢◌, refl, ◌⊎◌, inl, inr, Bool, List, [], ◌∷◌, ◌++◌, Option,
  none, some, get_elem?, set, if◌then◌else◌, ap, sym, ◌∙◌, arith, Option-cases, ◌==◌,
}
use native.Mathlib.Decide.{dec_le}
use localsoftware.Common.Maps.{lookup, insert, nat_eq, lookup-insert}
use localsoftware.Runtime.Types.{
  TypeIndex, FunctionFunc, EventInfo, Locator, IoUringData, ok, err, out_of_range, runtime_error,
}
use localsoftware.Runtime.Event.{
  Queues, slots, unresolved, find_empty, fill_empty, construct, call_at, call_first, find_filled,
  destroy,
}

abbrev pub flat : Option (Option EventInfo) → Option EventInfo
flat none = none
flat (some s) = s

-- The child in a slot, if the slot exists and is filled.
abbrev pub child : IoUringData → TypeIndex → ℕ → Option EventInfo
child d ty i = flat (get_elem? (slots d ty) i)

fill_empty_lem :
    (v : List (Option EventInfo)) (e : EventInfo)
    → (flat (get_elem? v (find_empty v)) ≡ none)
      × (flat (get_elem? (fill_empty v e) (find_empty v)) ≡ some e)
unfolding find_empty fill_empty
fill_empty_lem [] e = (refl, refl)
fill_empty_lem (none ∷ v) e = (refl, refl)
fill_empty_lem (some x ∷ v) e =
    let s : find_empty v + 1 ≡ suc (find_empty v) = omega arith in rw s (fill_empty_lem v e)

fill_empty_ne :
    (v : List (Option EventInfo)) (e : EventInfo) (i : ℕ)
    → i ≢ find_empty v
    → flat (get_elem? (fill_empty v e) i) ≡ flat (get_elem? v i)
unfolding find_empty fill_empty
fill_empty_ne [] e zero h = absurd (h refl)
fill_empty_ne [] e (suc i) h = refl
fill_empty_ne (none ∷ v) e zero h = absurd (h refl)
fill_empty_ne (none ∷ v) e (suc i) h = refl
fill_empty_ne (some x ∷ v) e zero h = refl
fill_empty_ne (some x ∷ v) e (suc i) h = fill_empty_ne v e i (λ p. h (omega arith))

find_empty_first :
    (v : List (Option EventInfo)) (i : ℕ) → i < find_empty v → flat (get_elem? v i) ≢ none
unfolding find_empty
find_empty_first [] i h = absurd (omega arith)
find_empty_first (none ∷ v) i h = absurd (omega arith)
find_empty_first (some x ∷ v) zero h = λ e. cc
find_empty_first (some x ∷ v) (suc i) h = find_empty_first v i (omega arith)

slots-insert :
    (d : IoUringData) (ty ty' : TypeIndex) (v : List (Option EventInfo))
    → slots (record d { sub_events = insert ty v d.sub_events }) ty'
      ≡ (if ty == ty' then v else slots d ty')
slots-insert d ty ty' v = ground (arith, lookup-insert ty ty' v d.sub_events)

-- The context after a write to the slots of one type: the other types keep theirs.
child-insert_self :
    (d : IoUringData) (ty : TypeIndex) (v : List (Option EventInfo)) (i : ℕ)
    → child (record d { sub_events = insert ty v d.sub_events }) ty i ≡ flat (get_elem? v i)
child-insert_self d ty v i =
    let e : slots (record d { sub_events = insert ty v d.sub_events }) ty ≡ v =
      ground (arith, slots-insert d ty ty v) in
    ap (λ w. flat (get_elem? w i)) e

child-insert_ne :
    (d : IoUringData) (ty ty' : TypeIndex) (v : List (Option EventInfo)) (i : ℕ)
    → ty ≢ ty'
    → child (record d { sub_events = insert ty v d.sub_events }) ty' i ≡ child d ty' i
child-insert_ne d ty ty' v i ne =
    let e : slots (record d { sub_events = insert ty v d.sub_events }) ty' ≡ slots d ty' =
      ground (arith, slots-insert d ty ty' v) in
    ap (λ w. flat (get_elem? w i)) e

-- What `construct` promises of the slot `loc` that it returns.
pub record Constructed (q : Queues) (d : IoUringData) (own : ℕ) (ty : TypeIndex) (object : ℕ)
    (shared : Bool) (q' : Queues) (d' : IoUringData) (loc : ℕ) : Type 0 where
  pub was_empty : child d ty loc ≡ none
  pub lower_filled : (i : ℕ) → i < loc → child d ty i ≢ none
  pub now_filled : child d' ty loc ≡ some unresolved
  pub others : (i : ℕ) → i ≢ loc → child d' ty i ≡ child d ty i
  pub other_types : (ty' : TypeIndex) (i : ℕ) → ty ≢ ty' → child d' ty' i ≡ child d ty' i
  pub queued :
      q'.construct_
      ≡ q.construct_
        ++ record {
          idx = ty;
          vidx = loc;
          fun = record { object = object; slot = some (own, ty, loc) };
          uring_data = if shared then some own else none;
        }
          ∷ []

-- `i` and `i_s` take the lowest slot that holds no child, fill it with an unresolved entry, queue the
-- construction for that slot, and leave every other slot of every type as it was.
pub construct-Constructed :
    (q : Queues) (d : IoUringData) (own : ℕ) (ty : TypeIndex) (object : ℕ) (shared : Bool)
    → let (q', d', loc) = construct q d own ty object shared in
      Constructed q d own ty object shared q' d' loc
unfolding construct
construct-Constructed q d own ty object shared = record {
  was_empty = (fill_empty_lem (slots d ty) unresolved).0;
  lower_filled = λ i h. find_empty_first (slots d ty) i h;
  now_filled = rw child-insert_self (fill_empty_lem (slots d ty) unresolved).1;
  others = λ i h. rw child-insert_self (fill_empty_ne (slots d ty) unresolved i h);
  other_types = λ ty' i h. child-insert_ne d ty ty' (fill_empty (slots d ty) unresolved) i h;
  queued = refl;
}

flat-set :
    (v : List (Option EventInfo)) (i : ℕ) (x : EventInfo)
    → flat (get_elem? v i) ≡ some x
    → flat (get_elem? (set v i none) i) ≡ none
flat-set [] i x h = cc
flat-set (y ∷ v) zero x h = refl
flat-set (y ∷ v) (suc i) x h = flat-set v i x h

flat-set_ne :
    (v : List (Option EventInfo)) (i j : ℕ)
    → j ≢ i
    → flat (get_elem? (set v i none) j) ≡ flat (get_elem? v j)
flat-set_ne [] i j h = refl
flat-set_ne (y ∷ v) zero zero h = absurd (h refl)
flat-set_ne (y ∷ v) zero (suc j) h = refl
flat-set_ne (y ∷ v) (suc i) zero h = refl
flat-set_ne (y ∷ v) (suc i) (suc j) h = flat-set_ne v i j (λ e. h (ap suc e))

flat-some : (o : Option (Option EventInfo)) (e : EventInfo) → flat o ≡ some e → o ≡ some (some e)
flat-some none e h = cc
flat-some (some s) e h = cc

slots-some :
    (d : IoUringData) (ty : TypeIndex) (i : ℕ) (e : EventInfo)
    → child d ty i ≡ some e
    → lookup ty d.sub_events ≡ some (slots d ty)
slots-some d ty i e h = elim (Option-cases (lookup ty d.sub_events)) [
  | inl n ↦ absurd (ground (arith, h))
  | inr (v, s) ↦ ground arith
]

abbrev pub emptied : IoUringData → TypeIndex → ℕ → IoUringData
emptied d ty idx = record d { sub_events = insert ty (set (slots d ty) idx none) d.sub_events }

-- Destroying a child whose place is known: it is queued for deletion on its threads, its slot and no
-- other becomes empty, and the next child of the type is put into a slot not above it.
pub destroy-construct :
    (q : Queues) (d : IoUringData) (ty : TypeIndex) (idx : ℕ) (e : EventInfo) (l : Locator)
    → child d ty idx ≡ some e
    → e.locator ≡ some l
    → (destroy q d ty idx
        ≡ ok (
          record q {
            delete_ = q.delete_ ++ record { thread = l.thread_id; obj_id = l.object_id } ∷ [];
          },
          emptied d ty idx,
        ))
      × (child (emptied d ty idx) ty idx ≡ none)
      × ((i : ℕ) → i ≢ idx → child (emptied d ty idx) ty i ≡ child d ty i)
      × ((own object : ℕ) (shared : Bool)
          → (construct q (emptied d ty idx) own ty object shared).2 ≤ idx)
unfolding destroy
destroy-construct q d ty idx e l h p = (
  rw (slots-some d ty idx e h, flat-some (get_elem? (slots d ty) idx) e h, p),
  gone,
  (λ i ne. rw child-insert_self (flat-set_ne (slots d ty) idx i ne)),
  λ own object shared. reuse own object shared,
)
  where
    gone : child (emptied d ty idx) ty idx ≡ none
    gone = rw child-insert_self (flat-set (slots d ty) idx e h)

    reuse :
        (own object : ℕ) (shared : Bool)
        → (construct q (emptied d ty idx) own ty object shared).2 ≤ idx
    reuse own object shared =
        let c = construct-Constructed q (emptied d ty idx) own ty object shared in
        elim (dec_le (construct q (emptied d ty idx) own ty object shared).2 idx) [
          | yes below ↦ below
          | no above ↦ absurd (c.lower_filled idx (omega arith) gone)
        ]

find_filled_cases :
    (v : List (Option EventInfo))
    → ((find_filled v ≡ none) × ((i : ℕ) → flat (get_elem? v i) ≡ none))
      ⊎ ((n : ℕ) × (find_filled v ≡ some n)
          × (flat (get_elem? v n) ≢ none)
          × ((i : ℕ) → i < n → flat (get_elem? v i) ≡ none))
unfolding find_filled
find_filled_cases [] = inl (refl, λ i. refl)
find_filled_cases (some x ∷ v) = inr (0, refl, (λ e. cc), λ i h. absurd (omega arith))
find_filled_cases (none ∷ v) = elim (find_filled_cases v) [
  | inl (e, all) ↦ inl (rw (e, find_filled), at_none v all)
  | inr (n, e, filled, lower) ↦
      inr (suc n, rw (e, find_filled) (ap some (omega arith)), filled, below_none v n lower)
]
  where
    at_none :
        (v : List (Option EventInfo))
        → ((i : ℕ) → flat (get_elem? v i) ≡ none)
        → (i : ℕ) → flat (get_elem? (none ∷ v) i) ≡ none
    at_none v all zero = refl
    at_none v all (suc i) = all i

    below_none :
        (v : List (Option EventInfo)) (n : ℕ)
        → ((i : ℕ) → i < n → flat (get_elem? v i) ≡ none)
        → (i : ℕ) → i < suc n
        → flat (get_elem? (none ∷ v) i) ≡ none
    below_none v n lower zero h = refl
    below_none v n lower (suc i) h = lower i (omega arith)

-- `c(fun, args...)` calls the child in the lowest filled slot of the type, and throws if the type has
-- no child: `out_of_range` before the first one was constructed, `runtime_error` after that.
pub call_first_cases :
    (q : Queues) (d : IoUringData) (ty : TypeIndex) (fun : FunctionFunc)
    → ((lookup ty d.sub_events ≡ none) × (call_first q d ty fun ≡ err out_of_range))
      ⊎ ((lookup ty d.sub_events ≢ none)
          × ((i : ℕ) → child d ty i ≡ none)
          × (call_first q d ty fun ≡ err runtime_error))
      ⊎ ((n : ℕ) × (child d ty n ≢ none)
          × ((i : ℕ) → i < n → child d ty i ≡ none)
          × (call_first q d ty fun ≡ ok (call_at q d ty n fun)))
unfolding call_first
call_first_cases q d ty fun = elim (Option-cases (lookup ty d.sub_events)) [
  | inl e ↦ inl (e, rw e)
  | inr (v, e) ↦ elim (find_filled_cases v) [
    | inl (f, all) ↦ inr (inl ((λ n. ground arith), (λ i. here v e i ∙ all i), rw (e, f)))
    | inr (n, f, filled, lower) ↦
        inr (
          inr (n, (λ p. filled (sym (here v e n) ∙ p)), (λ i h. here v e i ∙ lower i h), rw (e, f)))
  ]
]
  where
    here :
        (v : List (Option EventInfo))
        → lookup ty d.sub_events ≡ some v
        → (i : ℕ) → child d ty i ≡ flat (get_elem? v i)
    here v e i = let s : slots d ty ≡ v = ground arith in ap (λ w. flat (get_elem? w i)) s
