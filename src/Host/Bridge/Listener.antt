-- ===== src/Host/Bridge/Listener.antt =====
-- The global reference to the listener in core/native_bridge.cpp: nativeSetLifecycleListener, and
-- InvokeStateCallback, which loads the reference on the monitor thread and uses it later. The Java
-- VM is not part of the repository: NewGlobalRef gives a number that it has not given yet, and
-- what the other calls answer is an argument. Two threads do not set a listener at a time here.
use virtualaosp.Base.{
  ℕ, suc, ◌<◌, Bool, true, false, Option, none, some, List, [], ◌∷◌, ◌++◌, ◌==◌, ◌≡◌, refl, ap, ◌∙◌,
  subst, arith, if◌then◌else◌, ==_self,
}

-- g_listener, the global references of the program, the next one of the VM, and the reference
-- that a callback in progress has loaded.
pub record Refs : Type 0 where
  pub listener : Option ℕ
  pub live : List ℕ
  pub next : ℕ
  pub loaded : Option ℕ

abbrev pub no_refs : Refs
no_refs = record { listener = none; live = []; next = 0; loaded = none }

unfoldable pub delete_ref : ℕ → List ℕ → List ℕ
delete_ref r [] = []
delete_ref r (x ∷ xs) = let later = delete_ref r xs in if x == r then later else x ∷ later

-- `if (old != nullptr) env->DeleteGlobalRef(old);`
abbrev pub delete_old : Option ℕ → List ℕ → List ℕ
delete_old none live = live
delete_old (some old) live = delete_ref old live

-- Whether the listener given is not null.
abbrev pub store_new : Bool → Refs → Refs
store_new false s = s
store_new true s = record s { listener = some s.next; live = s.next ∷ s.live; next = suc s.next }

unfoldable pub set_listener : Refs → Bool → Refs
unfolding delete_ref
set_listener s given =
    store_new given (record s { listener = none; live = delete_old s.listener s.live })

-- AcquireListener
unfoldable pub acquire_listener : Refs → Refs
acquire_listener s = record s { loaded = s.listener }

-- The end of InvokeStateCallback.
abbrev pub callback_ends : Refs → Refs
callback_ends s = record s { loaded = none }

-- What GetEnv, AttachCurrentThread and GetMethodID answer.
pub record JniAnswers : Type 0 where
  pub attached : Bool
  pub attaches : Bool
  pub has_method : Bool

pub data JniAct : Type 0 where
  attach detach clear_exception : JniAct
  object_class delete_local : ℕ → JniAct
  on_state_changed : ℕ → ℕ → ℕ → JniAct

abbrev pub call_method : Bool → ℕ → ℕ → ℕ → List JniAct
call_method true r state code = on_state_changed r state code ∷ []
call_method false r state code = clear_exception ∷ []

abbrev pub with_class : JniAnswers → ℕ → ℕ → ℕ → List JniAct
with_class a r state code =
    object_class r ∷ (call_method a.has_method r state code ++ (delete_local r ∷ []))

abbrev pub with_env : JniAnswers → ℕ → ℕ → ℕ → List JniAct
with_env a r state code =
    if a.attached
    then with_class a r state code
    else if a.attaches
    then attach ∷ (with_class a r state code ++ (detach ∷ []))
    else []

-- The rest of InvokeStateCallback, with the reference that it loaded.
unfoldable pub invoke_state_callback : JniAnswers → Option ℕ → ℕ → ℕ → List JniAct
invoke_state_callback a none state code = []
invoke_state_callback a (some r) state code = with_env a r state code

pub data Event : Type 0 where
  sets : Bool → Event
  loads ends : Event

unfoldable pub step : Refs → Event → Refs
unfolding set_listener acquire_listener
step s (sets given) = set_listener s given
step s loads = acquire_listener s
step s ends = callback_ends s

unfoldable pub run : Refs → List Event → Refs
unfolding step
run s [] = s
run s (e ∷ es) = run (step s e) es

abbrev pub refs_of : Option ℕ → List ℕ
refs_of none = []
refs_of (some r) = r ∷ []

pub is_live : ℕ → List ℕ → Bool
is_live r [] = false
is_live r (x ∷ xs) = if x == r then true else is_live r xs

Older : Option ℕ → ℕ → Type 0
Older none n = Unit
Older (some r) n = r < n

record Inv (s : Refs) : Type 0 where
  one : s.live ≡ refs_of s.listener
  older : Older s.listener s.next

deleted : (o : Option ℕ) → delete_old o (refs_of o) ≡ []
unfolding delete_ref
deleted none = refl
deleted (some r) = ap (λ b. if b then [] else r ∷ []) (==_self r)

set-Inv : (s : Refs) (given : Bool) → Inv s → Inv (set_listener s given)
unfolding set_listener Older
set-Inv s false inv = record {
  one = ap (delete_old s.listener) inv.one ∙ deleted s.listener;
  older = tt;
}
set-Inv s true inv = record {
  one =
      ap (λ live. s.next ∷ delete_old s.listener live) inv.one
      ∙ ap (λ live. s.next ∷ live) (deleted s.listener);
  older = omega arith;
}

step-Inv : (s : Refs) (e : Event) → Inv s → Inv (step s e)
unfolding step acquire_listener
step-Inv s (sets given) inv = set-Inv s given inv
step-Inv s loads inv = record { one = inv.one; older = inv.older }
step-Inv s ends inv = record { one = inv.one; older = inv.older }

run-Inv : (s : Refs) (es : List Event) → Inv s → Inv (run s es)
unfolding run
run-Inv s [] inv = inv
run-Inv s (e ∷ es) inv = run-Inv (step s e) es (step-Inv s e inv)

no_refs-Inv : Inv no_refs
unfolding Older
no_refs-Inv = record { one = refl; older = tt }

-- Behind a set the reference of the listener before is gone.
set_gone :
    (s : Refs) (given : Bool) (r : ℕ)
    → Inv s
    → s.listener ≡ some r
    → is_live r (set_listener s given).live ≡ false
unfolding set_listener is_live Older
set_gone s false r inv e =
    ap (λ live. is_live r (delete_old s.listener live)) inv.one
    ∙ ap (is_live r) (deleted s.listener)
set_gone s true r inv e =
    let young = subst (λ o. Older o s.next) e inv.older in
    ap (λ live. is_live r (s.next ∷ delete_old s.listener live)) inv.one
    ∙ ap (λ live. is_live r (s.next ∷ live)) (deleted s.listener)
    ∙ ground (arith, young)

-- Over any sets of a listener and callbacks, while a listener is set the program has exactly its
-- one global reference. A callback that goes on directly uses a reference that is live; if a set
-- comes between the load and the use, it uses one that was deleted, whatever is set.
pub callback_reference :
    (es : List Event) (r : ℕ) (given : Bool)
    → (run no_refs es).listener ≡ some r
    → ((run no_refs es).live ≡ r ∷ [])
      × ((run (run no_refs es) (loads ∷ [])).loaded ≡ some r)
      × (is_live r (run (run no_refs es) (loads ∷ [])).live ≡ true)
      × ((run (run no_refs es) (loads ∷ sets given ∷ [])).loaded ≡ some r)
      × (is_live r (run (run no_refs es) (loads ∷ sets given ∷ [])).live ≡ false)
unfolding run set_listener acquire_listener is_live
callback_reference es r given e =
    let s = run no_refs es in
    let inv = run-Inv no_refs es no_refs-Inv in
    let one = inv.one ∙ ap refs_of e in
    (
      one,
      loaded_is s e,
      here s one,
      still s given e,
      set_gone (record s { loaded = s.listener }) given r
          (record { one = inv.one; older = inv.older }) e,
    )
  where
    loaded_is : (s : Refs) → s.listener ≡ some r → (run s (loads ∷ [])).loaded ≡ some r
    loaded_is s e = e

    here : (s : Refs) → s.live ≡ r ∷ [] → is_live r (run s (loads ∷ [])).live ≡ true
    here s one = ap (is_live r) one ∙ ap (λ b. if b then true else false) (==_self r)

    still :
        (s : Refs) (given : Bool)
        → s.listener ≡ some r
        → (run s (loads ∷ sets given ∷ [])).loaded ≡ some r
    still s true e = e
    still s false e = e
