-- ===== src/Host/Bridge/Notices.antt =====
-- What the listener of core/native_bridge.cpp was last told against the state of the launcher.
use virtualaosp.Base.{
  ℕ, zero, suc, Bool, true, false, ◌&&◌, Option, none, some, List, [], ◌∷◌, ◌==◌, ◌≡◌, refl, ◌∙◌,
  sym, subst, inl, inr, arith,
}
use virtualaosp.Base.Int.{ℤ, pos, negsuc}
use virtualaosp.Host.Guest.{
  ContainerState, stopped, starting, running, crashed, terminated, Outcome, refused, started,
  aborts, is_up, WaitStatus, exited, signalled, final_state, exit_code, monitor_loop,
  stop_container,
}
use virtualaosp.Host.Guest.Lifecycle.{launcher_of, Consistent, final-Consistent, pump_stops}
use virtualaosp.Host.Bridge.{
  state_code, native_start, Bridge, new_bridge, tell_start, tell_exit, guest_exit, after_start,
  Event, starts, tells_start, exits, tells_exit, stops, step, run,
}
use virtualaosp.Host.Bridge.Starts.{Result, native-Result, native-Consistent}

abbrev pub is_running : ContainerState → Bool
is_running running = true
is_running stopped = false
is_running starting = false
is_running crashed = false
is_running terminated = false

-- The listener was last told that the guest runs.
abbrev pub told_running : List (ℕ × ℕ) → Bool
told_running [] = false
told_running ((code, exit) ∷ told) = code == 2

-- What is due and was told, in a state of the launcher.
unfoldable pub Tracks : ContainerState → ℕ → Option (ContainerState × ℕ) → List (ℕ × ℕ) → Type 0
Tracks running due last told = (last ≡ none) × (due ≡ 0 → told_running told ≡ true)
Tracks stopped due last told = (due ≡ 0) × (last ≡ none → told_running told ≡ false)
Tracks starting due last told = (due ≡ 0) × (last ≡ none → told_running told ≡ false)
Tracks crashed due last told = (due ≡ 0) × (last ≡ none → told_running told ≡ false)
Tracks terminated due last told = (due ≡ 0) × (last ≡ none → told_running told ≡ false)

-- A callback that is due tells of an end.
unfoldable pub Ends : Option (ContainerState × ℕ) → Type 0
Ends none = Unit
Ends (some (state, code)) = is_running state ≡ false

pub record Inv (b : Bridge) : Type 0 where
  pub fits : Consistent b.launcher
  pub tracks : Tracks b.launcher.state b.starts_due b.exit_due b.told
  pub ends : Ends b.exit_due

down-Tracks :
    (s : ContainerState) (due : ℕ) (last : Option (ContainerState × ℕ)) (told : List (ℕ × ℕ))
    → is_up s ≡ false
    → Tracks s due last told
    → Tracks stopped due last told
unfolding Tracks
down-Tracks running due last told down t = ground (arith, down)
down-Tracks stopped due last told down t = t
down-Tracks starting due last told down t = ground (arith, down)
down-Tracks crashed due last told down t = t
down-Tracks terminated due last told down t = t

told-code : (s : ContainerState) → (state_code s == 2) ≡ is_running s
told-code running = refl
told-code stopped = refl
told-code starting = refl
told-code crashed = refl
told-code terminated = refl

-- A callback is told.
told-Tracks :
    (s : ContainerState) (b : Bridge) (o : Option (ContainerState × ℕ))
    → b.exit_due ≡ o
    → Ends o
    → Tracks s b.starts_due o b.told
    → Tracks s (tell_exit o b).starts_due (tell_exit o b).exit_due (tell_exit o b).told
unfolding Tracks Ends
told-Tracks s b none e x t = subst (λ o. Tracks s b.starts_due o b.told) (sym e) t
told-Tracks running b (some (end, code)) e x t = ground (arith, t.0)
told-Tracks stopped b (some (end, code)) e x t = (t.0, λ h. told-code end ∙ x)
told-Tracks starting b (some (end, code)) e x t = (t.0, λ h. told-code end ∙ x)
told-Tracks crashed b (some (end, code)) e x t = (t.0, λ h. told-code end ∙ x)
told-Tracks terminated b (some (end, code)) e x t = (t.0, λ h. told-code end ∙ x)

told-none :
    (b : Bridge) (o : Option (ContainerState × ℕ))
    → b.exit_due ≡ o
    → (tell_exit o b).exit_due ≡ none
told-none b none e = e
told-none b (some due) e = refl

tell_exit-launcher :
    (b : Bridge) (o : Option (ContainerState × ℕ)) → (tell_exit o b).launcher ≡ b.launcher
tell_exit-launcher b none = refl
tell_exit-launcher b (some due) = refl

none-Ends : (o : Option (ContainerState × ℕ)) → o ≡ none → Ends o
unfolding Ends
none-Ends o e = subst Ends (sym e) tt

tell_exit-Inv : (b : Bridge) → Inv b → Inv (tell_exit b.exit_due b)
tell_exit-Inv b inv = record {
  fits = subst Consistent (sym (tell_exit-launcher b b.exit_due)) inv.fits;
  tracks =
      subst
        (λ l.
          Tracks l.state (tell_exit b.exit_due b).starts_due (tell_exit b.exit_due b).exit_due
            (tell_exit b.exit_due b).told)
        (sym (tell_exit-launcher b b.exit_due))
        (told-Tracks b.launcher.state b b.exit_due refl inv.ends inv.tracks);
  ends = none-Ends (tell_exit b.exit_due b).exit_due (told-none b b.exit_due refl);
}

-- A notification of a start is due only while the guest runs.
tell_start-Tracks :
    (s : ContainerState) (n : ℕ) (last : Option (ContainerState × ℕ)) (told : List (ℕ × ℕ))
    → Tracks s (suc n) last told
    → Tracks s n last ((2, 0) ∷ told)
unfolding Tracks
tell_start-Tracks running n last told t = (t.0, λ h. refl)
tell_start-Tracks stopped n last told t = ground (arith, t.0)
tell_start-Tracks starting n last told t = ground (arith, t.0)
tell_start-Tracks crashed n last told t = ground (arith, t.0)
tell_start-Tracks terminated n last told t = ground (arith, t.0)

tell_start-Inv : (b : Bridge) (n : ℕ) → b.starts_due ≡ n → Inv b → Inv (tell_start n b)
tell_start-Inv b zero e inv = inv
tell_start-Inv b (suc n) e inv = record {
  fits = inv.fits;
  tracks =
      tell_start-Tracks b.launcher.state n b.exit_due b.told
        (subst (λ k. Tracks b.launcher.state k b.exit_due b.told) e inv.tracks);
  ends = inv.ends;
}

started-Tracks :
    (s : ContainerState) (n : ℕ) (last : Option (ContainerState × ℕ)) (told : List (ℕ × ℕ))
    → s ≡ running
    → last ≡ none
    → Tracks s (suc n) last told
unfolding Tracks
started-Tracks s n last told e e' =
    subst (λ s'. Tracks s' (suc n) last told) (sym e) (e', λ h. ground arith)

start-Inv :
    (b : Bridge) (o : Outcome)
    → Result b.launcher o
    → Consistent (launcher_of o)
    → Inv b
    → Inv (after_start b o)
unfolding Result
start-Inv b (refused l) (inl same) c inv = record {
  fits = c;
  tracks = subst (λ x. Tracks x.state b.starts_due b.exit_due b.told) (sym same) inv.tracks;
  ends = inv.ends;
}
start-Inv b (refused l) (inr (at, down)) c inv = record {
  fits = c;
  tracks =
      subst (λ s. Tracks s b.starts_due b.exit_due b.told) (sym at)
        (down-Tracks b.launcher.state b.starts_due b.exit_due b.told down inv.tracks);
  ends = inv.ends;
}
start-Inv b (started l spawn) (at, down) c inv = record {
  fits = c;
  tracks = started-Tracks l.state _ _ _ at (told-none b b.exit_due refl);
  ends = none-Ends _ (told-none b b.exit_due refl);
}
start-Inv b (aborts l) r c inv = absurd r

exit-Tracks :
    (status : WaitStatus) (due : ℕ) (told : List (ℕ × ℕ))
    → due ≡ 0
    → Tracks (final_state status) due (some (final_state status, exit_code status)) told
unfolding Tracks
exit-Tracks (exited zero) due told e = (e, λ h. ground arith)
exit-Tracks (exited (suc n)) due told e = (e, λ h. ground arith)
exit-Tracks (signalled n) due told e = (e, λ h. ground arith)

pub exit-Ends : (status : WaitStatus) → is_running (final_state status) ≡ false
exit-Ends (exited zero) = refl
exit-Ends (exited (suc n)) = refl
exit-Ends (signalled n) = refl

exit-Inv :
    (b : Bridge) (status : WaitStatus) (pid : ℤ)
    → b.starts_due ≡ 0
    → Inv b
    → Inv (guest_exit pid b status)
unfolding monitor_loop Ends
exit-Inv b status (pos zero) told inv = inv
exit-Inv b status (negsuc n) told inv = inv
exit-Inv b status (pos (suc n)) told inv = record {
  fits = final-Consistent b.launcher status;
  tracks = exit-Tracks status b.starts_due b.told told;
  ends = exit-Ends status;
}

-- The notification of a start comes before the exit of the guest.
abbrev pub orderly : Bridge → Event → Bool
orderly b (exits status) = b.starts_due == 0
orderly b e = true

unfoldable pub in_order : Bridge → List Event → Bool
unfolding step
in_order b [] = true
in_order b (e ∷ es) = orderly b e && in_order (step b e) es

step-Inv : (b : Bridge) (e : Event) → orderly b e ≡ true → Inv b → Inv (step b e)
unfolding step stop_container
step-Inv b (starts rootfs libfake init_binary a) ok inv =
    start-Inv b (native_start b.launcher rootfs libfake init_binary a)
      (native-Result b.launcher rootfs libfake init_binary a)
      (native-Consistent b.launcher rootfs libfake init_binary a inv.fits) inv
step-Inv b tells_start ok inv = tell_start-Inv b b.starts_due refl inv
step-Inv b (exits status) ok inv = exit-Inv b status b.launcher.guest_pid (ground (arith, ok)) inv
step-Inv b tells_exit ok inv = tell_exit-Inv b inv
step-Inv b (stops signal) ok inv = record {
  fits = pump_stops b.launcher.state b.launcher inv.fits;
  tracks = inv.tracks;
  ends = inv.ends;
}

split-and : (x y : Bool) → (x && y) ≡ true → (x ≡ true) × (y ≡ true)
split-and true y h = (refl, h)
split-and false y h = ground arith

pub run-Inv : (b : Bridge) (es : List Event) → in_order b es ≡ true → Inv b → Inv (run b es)
unfolding in_order run
run-Inv b [] ok inv = inv
run-Inv b (e ∷ es) ok inv =
    let both = split-and (orderly b e) (in_order (step b e) es) ok in
    run-Inv (step b e) es both.1 (step-Inv b e both.0 inv)

pub new-Inv : Inv new_bridge
unfolding Tracks Ends
new-Inv = record { fits = refl; tracks = (refl, λ h. refl); ends = tt }

settled-told :
    (s : ContainerState) (due : ℕ) (last : Option (ContainerState × ℕ)) (told : List (ℕ × ℕ))
    → due ≡ 0
    → last ≡ none
    → Tracks s due last told
    → told_running told ≡ is_running s
unfolding Tracks
settled-told running due last told e e' t = t.1 e
settled-told stopped due last told e e' t = t.1 e'
settled-told starting due last told e e' t = t.1 e'
settled-told crashed due last told e e' t = t.1 e'
settled-told terminated due last told e e' t = t.1 e'

-- In every run in which the notification of a start comes before the exit of that guest: once
-- nothing is due, the listener was last told of a running guest exactly if the launcher runs.
pub told_settles :
    (es : List Event)
    → in_order new_bridge es ≡ true
    → (run new_bridge es).starts_due ≡ 0
    → (run new_bridge es).exit_due ≡ none
    → told_running (run new_bridge es).told ≡ is_running (run new_bridge es).launcher.state
told_settles es ok no_start no_exit =
    let b = run new_bridge es in
    settled-told b.launcher.state b.starts_due b.exit_due b.told no_start no_exit
      (run-Inv new_bridge es ok new-Inv).tracks
