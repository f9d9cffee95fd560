-- ===== src/Runtime/Event/First.antt =====
-- Calls of an event whose first child of a type is there.
use localsoftware.Common.{ℕ, ◌≡◌, refl, Bool, true, List, [], ◌∷◌, ◌++◌, ap, map, Option, some}
use localsoftware.Common.Maps.{lookup, nat_eq}
use localsoftware.Runtime.Types.{EventInfo, IoUringData, FunctionFunc, QueuedFunction, ok}
use localsoftware.Runtime.Event.{Queues, call_first, call_at, find_filled, direct_access}

pub call_first-zero :
    (q : Queues) (d : IoUringData) (class : ℕ) (f : FunctionFunc) (e : EventInfo)
    (v : List (Option EventInfo))
    → lookup class d.sub_events ≡ some (some e ∷ v)
    → call_first q d class f ≡ ok (call_at q d class 0 f)
unfolding call_first find_filled
call_first-zero q d class f e v h = rw h refl

pub direct_access-zero :
    (d : IoUringData) (alive : ℕ → Bool) (class obj : ℕ) (e : EventInfo)
    (v : List (Option EventInfo))
    → lookup class d.sub_events ≡ some (some e ∷ v)
    → e.event ≡ some obj
    → alive obj ≡ true
    → direct_access d alive class 0 ≡ ok (some obj)
unfolding direct_access
direct_access-zero d alive class obj e v h k a = rw (h, k, a) refl

-- The closures of a queue behind which one more call is put.
pub map_push :
    (fs : List QueuedFunction) (f : QueuedFunction) (gs : List FunctionFunc)
    → map (λ f. f.fun) (fs ++ f ∷ []) ++ gs ≡ map (λ f. f.fun) fs ++ (f.fun ∷ gs)
map_push [] f gs = refl
map_push (x ∷ fs) f gs = ap (λ l. x.fun ∷ l) (map_push fs f gs)
