-- ===== src/Host/Bridge/Starts.antt =====
-- What nativeStartContainer of core/native_bridge.cpp makes of the launcher.
use virtualaosp.Base.{
  ℕ, Bool, true, false, Option, none, some, ◌≡◌, refl, ◌⊎◌, inl, inr, if◌then◌else◌, ◌||◌, Bytes,
}
use virtualaosp.Host.Guest.{
  stopped, starting, in_state, running, LaunchConfig, Launcher, outside, Answers, Outcome, refused,
  started, aborts, Spawn, after_fork, with_binary, with_linker, is_up, start_container,
  resolve_binary,
}
use virtualaosp.Host.Guest.Lifecycle.{launcher_of, Consistent, start-Consistent}
use virtualaosp.Host.Bridge.{is_empty, config_of, native_start}

-- What a start makes of the launcher.
unfoldable pub Result : Launcher → Outcome → Type 0
Result l (refused l') = (l' ≡ l) ⊎ ((l'.state ≡ stopped) × (is_up l.state ≡ false))
Result l (started l' spawn) = (l'.state ≡ running) × (is_up l.state ≡ false)
Result l (aborts l') = ⊥

either-Result :
    (b : Bool) (l : Launcher) (x y : Outcome)
    → (b ≡ true → Result l x)
    → (b ≡ false → Result l y)
    → Result l (if b then x else y)
either-Result true l x y h h' = h refl
either-Result false l x y h h' = h' refl

fork-Result :
    (l l' : Launcher) (config : LaunchConfig) (spawn : Spawn) (o : Option ℕ)
    → is_up l.state ≡ false
    → Result l (after_fork outside l' config spawn o)
unfolding Result
fork-Result l l' config spawn none down = inr (refl, down)
fork-Result l l' config spawn (some n) down = (refl, down)

binary-Result :
    (l : Launcher) (config : LaunchConfig) (a : Answers) (linker : Bytes) (o : Option Bytes)
    → is_up l.state ≡ false
    → Result l (with_binary outside l config a linker o)
unfolding Result
binary-Result l config a linker none down = inr (refl, down)
binary-Result l config a linker (some binary) down =
    either-Result a.pipe_ok l _ _ (λ b. fork-Result l (in_state l starting) config _ a.child down)
      (λ b. inr (refl, down))

linker-Result :
    (l : Launcher) (config : LaunchConfig) (a : Answers) (o : Option Bytes)
    → is_up l.state ≡ false
    → Result l (with_linker outside l config a o)
unfolding Result
linker-Result l config a none down = inr (refl, down)
linker-Result l config a (some linker) down =
    binary-Result l config a linker
      (resolve_binary a.exists config.rootfs_path config.init_binary_path) down

start-Result :
    (l : Launcher) (config : LaunchConfig) (a : Answers)
    → Result l (start_container outside l config a)
unfolding Result start_container
start-Result l config a =
    either-Result (is_up l.state) l _ _ (λ b. inl refl) (λ b. linker-Result l config a _ b)

pub native-Result :
    (l : Launcher) (rootfs libfake init_binary : Option Bytes) (a : Answers)
    → Result l (native_start l rootfs libfake init_binary a)
unfolding Result native_start
native-Result l rootfs libfake init_binary a =
    let config = config_of rootfs libfake init_binary in
    either-Result (is_empty config.rootfs_path || is_empty config.init_binary_path) l _ _
      (λ b. inl refl) (λ b. start-Result l config a)

either-Consistent :
    (b : Bool) (x y : Outcome)
    → Consistent (launcher_of x)
    → Consistent (launcher_of y)
    → Consistent (launcher_of (if b then x else y))
either-Consistent true x y h h' = h
either-Consistent false x y h h' = h'

pub native-Consistent :
    (l : Launcher) (rootfs libfake init_binary : Option Bytes) (a : Answers)
    → Consistent l
    → Consistent (launcher_of (native_start l rootfs libfake init_binary a))
unfolding native_start
native-Consistent l rootfs libfake init_binary a fits =
    let config = config_of rootfs libfake init_binary in
    either-Consistent (is_empty config.rootfs_path || is_empty config.init_binary_path) (refused l)
      _ fits (start-Consistent l config a fits)
