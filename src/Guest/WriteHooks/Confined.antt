-- ===== src/Guest/WriteHooks/Confined.antt =====
-- The hooks of fake/syscall_hooks_write.cpp against one description of what a hook does, and the
-- locations that they give to libc.
use Prim.Native.String.{String}
use mathlib.Core.Option
use virtualaosp.Base.{
  Option, none, some, List, [], ◌∷◌, ◌≡◌, refl, ap, subst, ◌∙◌, ◌⊎◌, inl, inr, arith, Option-cases,
  Bytes,
}
use virtualaosp.Guest.Redirect.{Engine}
use virtualaosp.Guest.Redirect.Confine.{IsActive}
use virtualaosp.Guest.Translate.{
  Translated, value, overflowed, translate, IsSafe, AllSafe, translate-AllSafe, maybe_map-translate,
}
use virtualaosp.Guest.Libc.{Libc, Arg, path, text, num, Call, Reply, failed, enametoolong}
use virtualaosp.Guest.WriteHooks.{forward, forward_two}
use virtualaosp.Guest.WriteHooks
use virtualaosp.Guest.WriteHooks.Requests.{Request, symbol_of, args_of, serve}
use virtualaosp.Guest.WriteHooks.Requests

-- Each location replaced by its translation; `none` if one of them overflows the buffer.
pub translate_args : Engine → List Arg → Option (List Arg)
translate_args e [] = some []
translate_args e (num n ∷ args) = Option.map (◌∷◌ (num n)) (translate_args e args)
translate_args e (text t ∷ args) = Option.map (◌∷◌ (text t)) (translate_args e args)
translate_args e (path p ∷ args) = elim (translate e p) [
  | overflowed ↦ none
  | value p' was_mapped ↦ Option.map (◌∷◌ (path p')) (translate_args e args)
]

-- One call with the translated arguments, or ENAMETOOLONG and no call.
abbrev pub deliver : (libc : Libc) → String → Option (List Arg) → libc.World → Reply × libc.World
deliver libc symbol none w = (failed enametoolong, w)
deliver libc symbol (some args) w = libc.call (record { symbol = symbol; args = args }) w

-- The translation of one location, put back among the arguments behind it.
abbrev put : Translated → (Option Bytes → Option (List Arg)) → Option (List Arg)
put t post = elim t [ overflowed ↦ none | value p was_mapped ↦ post p ]

module _ (libc : Libc) (symbol : String) (w : libc.World) where
  abbrev call_of : List Arg → Call
  call_of args = record { symbol = symbol; args = args }

  forward_first :
      (t : Translated) (post : Option Bytes → List Arg)
      → forward libc t (λ p. call_of (post p)) w
        ≡ deliver libc symbol (put t (λ p. some (post p))) w
  unfolding forward
  forward_first overflowed post = refl
  forward_first (value p m) post = refl

  forward_behind :
      (t : Translated) (a : Arg) (post : Option Bytes → List Arg)
      → forward libc t (λ p. call_of (a ∷ post p)) w
        ≡ deliver libc symbol (Option.map (◌∷◌ a) (put t (λ p. some (post p)))) w
  unfolding forward
  forward_behind overflowed a post = refl
  forward_behind (value p m) a post = refl

  forward_pair :
      (t u : Translated)
      → forward_two libc t u (λ p q. call_of (path p ∷ path q ∷ [])) w
        ≡ deliver libc symbol
            (put t (λ p. Option.map (◌∷◌ (path p)) (put u (λ q. some (path q ∷ [])))))
            w
  unfolding forward_two
  forward_pair overflowed u = refl
  forward_pair (value p m) overflowed = refl
  forward_pair (value p m) (value q m') = refl

  forward_pair_at :
      (t u : Translated) (a b : Arg)
      → forward_two libc t u (λ p q. call_of (a ∷ path p ∷ b ∷ path q ∷ [])) w
        ≡ deliver libc symbol
            (Option.map (◌∷◌ a) (
              put t (λ p.
                Option.map (◌∷◌ (path p)) (Option.map (◌∷◌ b) (put u (λ q. some (path q ∷ [])))))))
            w
  unfolding forward_two
  forward_pair_at overflowed u a b = refl
  forward_pair_at (value p m) overflowed a b = refl
  forward_pair_at (value p m) (value q m') a b = refl

-- Every hook translates exactly the locations among its arguments, keeps the other arguments and
-- their order, and then calls the libc function of its own name once and returns its result; if
-- one location is too long it fails with ENAMETOOLONG and makes no call.
pub serve-deliver :
    (libc : Libc) (e : Engine) (q : Request) (w : libc.World)
    → serve libc e q w ≡ deliver libc (symbol_of q) (translate_args e (args_of q)) w
unfolding serve symbol_of args_of translate_args WriteHooks.mkdir WriteHooks.rmdir WriteHooks.unlink
    WriteHooks.chmod WriteHooks.chown WriteHooks.lchown WriteHooks.truncate WriteHooks.utimes
    WriteHooks.mkfifo WriteHooks.chdir WriteHooks.execve WriteHooks.mkdirat WriteHooks.unlinkat
    WriteHooks.fchmodat WriteHooks.fchownat WriteHooks.utimensat WriteHooks.rename WriteHooks.link
    WriteHooks.symlink WriteHooks.renameat
serve-deliver libc e (Requests.mkdir a b) w = forward_first libc "mkdir" w (translate e a) _
serve-deliver libc e (Requests.rmdir a) w = forward_first libc "rmdir" w (translate e a) _
serve-deliver libc e (Requests.unlink a) w = forward_first libc "unlink" w (translate e a) _
serve-deliver libc e (Requests.chmod a b) w = forward_first libc "chmod" w (translate e a) _
serve-deliver libc e (Requests.chown a b c) w = forward_first libc "chown" w (translate e a) _
serve-deliver libc e (Requests.lchown a b c) w = forward_first libc "lchown" w (translate e a) _
serve-deliver libc e (Requests.truncate a b) w = forward_first libc "truncate" w (translate e a) _
serve-deliver libc e (Requests.utimes a b) w = forward_first libc "utimes" w (translate e a) _
serve-deliver libc e (Requests.mkfifo a b) w = forward_first libc "mkfifo" w (translate e a) _
serve-deliver libc e (Requests.chdir a) w = forward_first libc "chdir" w (translate e a) _
serve-deliver libc e (Requests.execve a b c) w = forward_first libc "execve" w (translate e a) _
serve-deliver libc e (Requests.mkdirat a b c) w =
    rw (maybe_map-translate e b) (forward_behind libc "mkdirat" w (translate e b) (num a) _)
serve-deliver libc e (Requests.unlinkat a b c) w =
    rw (maybe_map-translate e b) (forward_behind libc "unlinkat" w (translate e b) (num a) _)
serve-deliver libc e (Requests.fchmodat a b c d) w =
    rw (maybe_map-translate e b) (forward_behind libc "fchmodat" w (translate e b) (num a) _)
serve-deliver libc e (Requests.fchownat a b c d f) w =
    rw (maybe_map-translate e b) (forward_behind libc "fchownat" w (translate e b) (num a) _)
serve-deliver libc e (Requests.utimensat a b c d) w =
    rw (maybe_map-translate e b) (forward_behind libc "utimensat" w (translate e b) (num a) _)
serve-deliver libc e (Requests.rename a b) w =
    forward_pair libc "rename" w (translate e a) (translate e b)
serve-deliver libc e (Requests.link a b) w =
    forward_pair libc "link" w (translate e a) (translate e b)
serve-deliver libc e (Requests.symlink a b) w =
    forward_behind libc "symlink" w (translate e b) (text a) _
serve-deliver libc e (Requests.renameat a b c d) w =
    rw (maybe_map-translate e b, maybe_map-translate e d)
      (forward_pair_at libc "renameat" w (translate e b) (translate e d) (num a) (num c))

-- Every location among the arguments is safe.
abbrev pub SafeArgs : Engine → List Arg → Type 0
SafeArgs e [] = Unit
SafeArgs e (path p ∷ args) = IsSafe e p × SafeArgs e args
SafeArgs e (text t ∷ args) = SafeArgs e args
SafeArgs e (num n ∷ args) = SafeArgs e args

SafeArgs-path :
    (e : Engine) (t : Translated) (rest : Option (List Arg)) {args : List Arg}
    → AllSafe e t
    → ((out : List Arg) → rest ≡ some out → SafeArgs e out)
    → (elim t [ overflowed ↦ none | value p was_mapped ↦ Option.map (◌∷◌ (path p)) rest ])
      ≡ some args
    → SafeArgs e args
SafeArgs-path e overflowed rest s ih h = cc
SafeArgs-path e (value p m) none s ih h = cc
SafeArgs-path e (value p m) (some out) {args} s ih h =
    subst (SafeArgs e) {x = path p ∷ out} {y = args} (ground arith) (s, ih out refl)

-- With an active engine, every location that a hook hands to libc is relative, in the sandbox,
-- virtual or excluded.
pub translate_args-SafeArgs :
    (e : Engine) (args : List Arg) {out : List Arg}
    → IsActive e
    → translate_args e args ≡ some out
    → SafeArgs e out
unfolding translate_args
translate_args-SafeArgs e [] {out} v h = subst (SafeArgs e) {x = []} {y = out} (ground arith) tt
translate_args-SafeArgs e (num n ∷ args) {out} v h = elim (Option-cases (translate_args e args)) [
  | inl over ↦ ground arith
  | inr (rest, e') ↦
      subst (SafeArgs e) {x = num n ∷ rest} {y = out} (ground arith)
        (translate_args-SafeArgs e args v e')
]
translate_args-SafeArgs e (text t ∷ args) {out} v h = elim (Option-cases (translate_args e args)) [
  | inl over ↦ ground arith
  | inr (rest, e') ↦
      subst (SafeArgs e) {x = text t ∷ rest} {y = out} (ground arith)
        (translate_args-SafeArgs e args v e')
]
translate_args-SafeArgs e (path p ∷ args) {out} v h =
    SafeArgs-path e (translate e p) (translate_args e args) (translate-AllSafe e p v)
      (λ more eq. translate_args-SafeArgs e args v eq) h

-- With an active engine each hook either fails with ENAMETOOLONG and makes no call, or makes
-- exactly one call of its own symbol, in which every location is relative, in the sandbox,
-- virtual or excluded.
pub serve-confined :
    (libc : Libc) (e : Engine) (q : Request) (w : libc.World)
    → IsActive e
    → (serve libc e q w ≡ (failed enametoolong, w))
      ⊎ ((args : List Arg) × (serve libc e q w
            ≡ libc.call (record { symbol = symbol_of q; args = args }) w)
          × SafeArgs e args)
serve-confined libc e q w v = elim (Option-cases (translate_args e (args_of q))) [
  | inl over ↦ inl (serve-deliver libc e q w ∙ ap (λ a. deliver libc (symbol_of q) a w) over)
  | inr (args, ok) ↦ inr (
    args,
    serve-deliver libc e q w ∙ ap (λ a. deliver libc (symbol_of q) a w) ok,
    translate_args-SafeArgs e (args_of q) v ok,
  )
]
