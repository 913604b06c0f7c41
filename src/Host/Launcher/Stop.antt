-- ===== src/Host/Launcher/Stop.antt =====
-- GuestLauncher::Stop of core/launcher.cpp. `gone t` is whether kill(pid, 0) fails with ESRCH when
-- the loop has waited `t` milliseconds. `waited` is an int, whose overflow ends what the model says.
use virtualaosp.Base.{
  ℕ, zero, suc, ◌+◌, ◌*◌, ◌/◌, ◌≤◌, ◌<◌, Bool, true, false, List, [], ◌∷◌, ◌≡◌, refl, ◌⊎◌, inl, inr,
  ap, ◌∙◌, arith, ltb, ltb→lt, leb, if◌then◌else◌, Bool-cases, subst, sym,
}
use native.Mathlib.Decide.{dec_lt}
use virtualaosp.Base.Int.{ℤ, pos, negsuc}

pub data ContainerState : Type 0 where
  idle starting running stopping exited : ContainerState

-- g_state and g_pid
pub record Status : Type 0 where
  pub state : ContainerState
  pub pid : ℤ

-- The signals that `Stop` sends, to the group or the process, and its waitpid.
pub data Effect : Type 0 where
  term_group term kill_group kill reap : Effect

pub data Polled : Type 0 where
  gone_at : ℕ → Polled
  expired : ℕ → Polled
  overflowed out_of_fuel : Polled

abbrev pub int_max : ℕ
int_max = 2147483647

abbrev pub poll_interval_ms : ℕ
poll_interval_ms = 50

-- `while (waited < grace_ms)`, with fuel for its tests.
unfoldable pub poll : ℕ → ℕ → (ℕ → Bool) → ℕ → Polled
poll zero grace_ms gone waited = out_of_fuel
poll (suc fuel) grace_ms gone waited =
    let rest = poll fuel grace_ms gone (waited + poll_interval_ms) in
    if ltb waited grace_ms
    then (if gone waited
        then gone_at waited
        else if leb (waited + poll_interval_ms) int_max
        then rest
        else overflowed)
    else expired waited

-- `waited < grace_ms` is false at once for a negative grace.
abbrev pub grace_of : ℤ → ℕ
grace_of (pos n) = n
grace_of (negsuc n) = 0

abbrev pub enough : ℕ → ℕ
enough grace_ms = grace_ms / poll_interval_ms + 2

pub record Stopped : Type 0 where
  pub result : Bool
  pub status : Status
  pub effects : List Effect

abbrev pub stopped : Status
stopped = record { state = idle; pid = pos 0 }

abbrev pub unfinished : Status → Stopped
unfinished s = record {
  result = false;
  status = record s { state = stopping };
  effects = term_group ∷ term ∷ [];
}

-- What follows the loop; out of fuel, it still runs, and behind an overflow nothing is said.
abbrev pub after_poll : Status → Polled → Stopped
after_poll s (gone_at t) = record {
  result = true;
  status = stopped;
  effects = term_group ∷ term ∷ [];
}
after_poll s (expired t) = record {
  result = true;
  status = stopped;
  effects = term_group ∷ term ∷ kill_group ∷ kill ∷ reap ∷ [];
}
after_poll s overflowed = unfinished s
after_poll s out_of_fuel = unfinished s

unfoldable pub stop : Status → ℤ → ℤ → (ℕ → Bool) → Stopped
unfolding poll
stop s (negsuc n) grace_ms gone = record { result = false; status = s; effects = [] }
stop s (pos zero) grace_ms gone = record { result = false; status = s; effects = [] }
stop s (pos (suc n)) grace_ms gone =
    after_poll s (poll (enough (grace_of grace_ms)) (grace_of grace_ms) gone 0)

-- How the loop ends: at a poll that finds the process gone, or past the grace, when no poll did.
abbrev Ends : ℕ → (ℕ → Bool) → ℕ → Polled → Type 0
Ends grace_ms gone k p =
    ((j : ℕ) × (p ≡ gone_at (j * poll_interval_ms))
      × (k ≤ j)
      × (j * poll_interval_ms < grace_ms)
      × (gone (j * poll_interval_ms) ≡ true))
    ⊎ ((j : ℕ) × (p ≡ expired (j * poll_interval_ms))
        × (grace_ms ≤ j * poll_interval_ms)
        × ((i : ℕ) → k ≤ i → i * poll_interval_ms < grace_ms → gone (i * poll_interval_ms) ≡ false))

poll_step :
    (fuel grace_ms : ℕ) (gone : ℕ → Bool) (waited : ℕ)
    → poll (suc fuel) grace_ms gone waited ≡ (
        if ltb waited grace_ms
        then (if gone waited
            then gone_at waited
            else if leb (waited + poll_interval_ms) int_max
            then poll fuel grace_ms gone (waited + poll_interval_ms)
            else overflowed)
        else expired waited)
unfolding poll
poll_step fuel grace_ms gone waited = refl

Ends-step :
    (grace_ms : ℕ) (gone : ℕ → Bool) (k : ℕ) (p : Polled)
    → gone (k * poll_interval_ms) ≡ false
    → Ends grace_ms gone (suc k) p
    → Ends grace_ms gone k p
Ends-step grace_ms gone k p here_not (inl (j, e, lo, hi, g)) = inl (j, e, omega arith, hi, g)
Ends-step grace_ms gone k p here_not (inr (j, e, hi, none_gone)) = inr (
  j,
  e,
  hi,
  (λ i lo lt. elim (dec_lt k i) [
    | yes h ↦ none_gone i (omega arith) lt
    | no h ↦ ap (λ m. gone (m * poll_interval_ms)) {x = i} {y = k} (omega arith) ∙ here_not
  ]),
)

poll-Ends :
    (fuel grace_ms : ℕ) (gone : ℕ → Bool) (k : ℕ)
    → grace_ms + poll_interval_ms ≤ (k + fuel) * poll_interval_ms
    → k * poll_interval_ms < grace_ms + poll_interval_ms
    → grace_ms + 49 ≤ int_max
    → Ends grace_ms gone k (poll fuel grace_ms gone (k * poll_interval_ms))
poll-Ends zero grace_ms gone k h small bound = absurd (omega arith)
poll-Ends (suc fuel) grace_ms gone k h small bound =
    let t = k * poll_interval_ms in
    let step = poll_step fuel grace_ms gone t in
    elim (Bool-cases (ltb t grace_ms)) [
      | inr late ↦ inr (k, step ∙ rw late refl, ground arith, (λ i lo lt. absurd (ground arith)))
      | inl early ↦ elim (Bool-cases (gone t)) [
        | inl g ↦ inl (k, step ∙ rw (early, g) refl, omega arith, ltb→lt t grace_ms early, g)
        | inr g ↦
            let lt = ltb→lt t grace_ms early in
            let room : leb (t + poll_interval_ms) int_max ≡ true = ground arith in
            let next : poll (suc fuel) grace_ms gone t
                ≡ poll fuel grace_ms gone (suc k * poll_interval_ms) =
              step
              ∙ rw (early, g, room)
                  (ap (poll fuel grace_ms gone) {x = t + poll_interval_ms}
                    {y = suc k * poll_interval_ms} (omega arith)) in
            subst (Ends grace_ms gone k) (sym next) (
              Ends-step grace_ms gone k _ g
                (poll-Ends fuel grace_ms gone (suc k) (omega arith) (omega arith) bound))
      ]
    ]

-- What the loop's end makes of the call.
abbrev pub Finishes : ℕ → (ℕ → Bool) → Stopped → Type 0
Finishes grace_ms gone r =
    (r.result ≡ true)
    × (r.status ≡ stopped)
    × (((j : ℕ) × (j * poll_interval_ms < grace_ms)
          × (gone (j * poll_interval_ms) ≡ true)
          × (r.effects ≡ term_group ∷ term ∷ []))
        ⊎ (((i : ℕ) → i * poll_interval_ms < grace_ms → gone (i * poll_interval_ms) ≡ false)
            × (r.effects ≡ term_group ∷ term ∷ kill_group ∷ kill ∷ reap ∷ [])))

after_poll-Finishes :
    (s : Status) (grace_ms : ℕ) (gone : ℕ → Bool) (p : Polled)
    → Ends grace_ms gone 0 p
    → Finishes grace_ms gone (after_poll s p)
after_poll-Finishes s grace_ms gone p (inl (j, e, lo, hi, g)) =
    subst (λ q. Finishes grace_ms gone (after_poll s q)) (sym e) (refl, refl, inl (j, hi, g, refl))
after_poll-Finishes s grace_ms gone p (inr (j, e, hi, none_gone)) =
    subst (λ q. Finishes grace_ms gone (after_poll s q)) (sym e)
      (refl, refl, inr ((λ i lt. none_gone i (omega arith) lt), refl))

-- For a grace of at most INT_MAX - 49, with which `waited` never overflows, `Stop` on a positive pid
-- returns, with true, and leaves the launcher idle without a pid.
-- Within the grace, polled every 50 ms, either some poll finds the process gone and it has only
-- been asked to terminate, or no poll does and it is killed and reaped.
pub stop-Finishes :
    (s : Status) (n : ℕ) (grace_ms : ℤ) (gone : ℕ → Bool)
    → grace_of grace_ms + 49 ≤ int_max
    → Finishes (grace_of grace_ms) gone (stop s (pos (suc n)) grace_ms gone)
unfolding stop
stop-Finishes s n grace_ms gone bound =
    let g = grace_of grace_ms in
    after_poll-Finishes s g gone (poll (enough g) g gone 0)
      (poll-Ends (enough g) g gone 0 (omega arith) (omega arith) bound)
