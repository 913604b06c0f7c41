-- ===== src/Host/Bridge/Late.antt =====
-- The notification of a start behind the end of the guest, in core/native_bridge.cpp.
use virtualaosp.Base.{
  ℕ, suc, true, false, Option, some, List, [], ◌∷◌, ◌++◌, map, ◌≡◌, refl, ap, ◌∙◌, subst, arith,
}
use virtualaosp.Base.Int.{pos}
use virtualaosp.Host.Guest.{
  ContainerState, stopped, starting, running, crashed, terminated, Launcher, WaitStatus,
  final_state, exit_code, monitor_loop, stop_container,
}
use virtualaosp.Host.Guest.Lifecycle.{StateFits}
use virtualaosp.Host.Bridge.{
  Bridge, new_bridge, tell_start, tell_exit, guest_exit, Event, tells_start, exits, tells_exit,
  stops, step, run,
}
use virtualaosp.Host.Bridge.Notices.{
  is_running, told_running, Tracks, in_order, run-Inv, new-Inv, exit-Ends,
}

-- Where a notification is due, there is a guest.
due-pid :
    (s : ContainerState) (l : Launcher) (last : Option (ContainerState × ℕ)) (told : List (ℕ × ℕ))
    → StateFits s l
    → Tracks s 1 last told
    → (n : ℕ) × (l.guest_pid ≡ pos (suc n))
unfolding Tracks
due-pid running l last told fits t = fits.0
due-pid stopped l last told fits t = ground (arith, t.0)
due-pid starting l last told fits t = absurd fits
due-pid crashed l last told fits t = ground (arith, t.0)
due-pid terminated l last told fits t = ground (arith, t.0)

stops_keep :
    (b : Bridge) (signals : List ℕ)
    → ((run b (map stops signals)).told ≡ b.told)
      × ((run b (map stops signals)).launcher.state ≡ b.launcher.state)
unfolding run step stop_container
stops_keep b [] = (refl, refl)
stops_keep b (signal ∷ signals) = stops_keep (step b (stops signal)) signals

late :
    (b : Bridge) (status : WaitStatus) (n : ℕ)
    → b.starts_due ≡ 1
    → b.launcher.guest_pid ≡ pos (suc n)
    → run b (exits status ∷ tells_exit ∷ tells_start ∷ [])
      ≡ tell_start 1 (
          tell_exit
            (some (final_state status, exit_code status))
            (guest_exit (pos (suc n)) b status))
unfolding run step monitor_loop
late b status n due pid =
    ap (λ p. run (guest_exit p b status) (tells_exit ∷ tells_start ∷ [])) pid
    ∙ ap
        (λ k. tell_start k (
          tell_exit (some (final_state status, exit_code status))
            (guest_exit (pos (suc n)) b status)))
        due

run-append : (b : Bridge) (xs ys : List Event) → run b (xs ++ ys) ≡ run (run b xs) ys
unfolding run
run-append b [] ys = refl
run-append b (x ∷ xs) ys = run-append (step b x) xs ys

-- Where the guest exits and the monitor thread calls back before the thread that started it tells
-- of the start, the listener is told of the end first and then of a running guest; so it stays
-- told of a running guest, whatever is stopped behind that, although the launcher has none.
pub late_start_told :
    (es : List Event) (status : WaitStatus) (signals : List ℕ)
    → in_order new_bridge es ≡ true
    → (run new_bridge es).starts_due ≡ 1
    → (let b =
          run
            (run new_bridge es)
            ((exits status ∷ tells_exit ∷ tells_start ∷ []) ++ map stops signals) in
        (told_running b.told ≡ true)
        × (b.launcher.state ≡ final_state status)
        × (is_running b.launcher.state ≡ false))
unfolding monitor_loop
late_start_told es status signals ok due =
    let start = run new_bridge es in
    let inv = run-Inv new_bridge es ok new-Inv in
    let (n, pid) =
      due-pid start.launcher.state start.launcher start.exit_due start.told inv.fits
        (subst (λ k. Tracks start.launcher.state k start.exit_due start.told) due inv.tracks) in
    let early = exits status ∷ tells_exit ∷ tells_start ∷ [] in
    let first = run start early in
    let whole = run-append start early (map stops signals) in
    let kept = stops_keep first signals in
    let first_is = late start status n due pid in
    let state_is =
      ap (λ b. b.launcher.state) whole ∙ kept.1 ∙ ap (λ b. b.launcher.state) first_is in
    (
      ap (λ b. told_running b.told) whole
          ∙ ap told_running kept.0
          ∙ ap (λ b. told_running b.told) first_is,
      state_is,
      ap is_running state_is ∙ exit-Ends status,
    )
