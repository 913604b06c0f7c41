-- ===== src/Frame/Host/Owned.antt =====
-- The descriptors and mappings of the host's channel, over the calls of core/container_core.cpp.
pub mod Pointer
use virtualaosp.Base.{
  ℕ, ◌+◌, ◌<◌, Bool, true, false, Option, none, some, List, [], ◌∷◌, ◌++◌, ◌==◌, ◌≡◌, refl, ap, ◌∙◌,
  sym, subst, arith, if◌then◌else◌, ==_self,
}
use virtualaosp.Base.Int.{ℤ, to_u32}
use virtualaosp.Frame.Layout.{Channel, create}
use virtualaosp.Frame.Host.{
  FrameChannelHost, Act, opened, closed, mapped, unmapped, Answers, destroy_channel, with_fd,
  with_layout, create_channel, Host, new_host, set_host_channel, after_create,
  native_create_frame_channel, native_close_frame_channel, serial_of, grab, Event, creates, closes,
  grabs, leaves, step, run,
}

-- A descriptor, or the mapping made of it.
pub data Resource : Type 0 where
  descriptor mapping : ℕ → Resource

abbrev one_if_same : ℕ → ℕ → ℕ
one_if_same a b = if a == b then 1 else 0

abbrev gain : Resource → Act → ℕ
gain (descriptor fd) (opened n) = one_if_same n fd
gain (mapping fd) (mapped n) = one_if_same n fd
gain k act = 0

abbrev loss : Resource → Act → ℕ
loss (descriptor fd) (closed n) = one_if_same n fd
loss (mapping fd) (unmapped n) = one_if_same n fd
loss k act = 0

pub gains : Resource → List Act → ℕ
gains k [] = 0
gains k (act ∷ acts) = gain k act + gains k acts

pub losses : Resource → List Act → ℕ
losses k [] = 0
losses k (act ∷ acts) = loss k act + losses k acts

abbrev holds_channel : Resource → FrameChannelHost → ℕ
holds_channel (descriptor fd) ch = one_if_same ch.fd fd
holds_channel (mapping fd) ch = one_if_same ch.fd fd

abbrev pub holds : Resource → Option FrameChannelHost → ℕ
holds k none = 0
holds k (some ch) = holds_channel k ch

gains-append : (k : Resource) (xs ys : List Act) → gains k (xs ++ ys) ≡ gains k xs + gains k ys
unfolding gains
gains-append k [] ys = omega arith
gains-append k (x ∷ xs) ys = omega (arith, gains-append k xs ys)

pub losses-append :
    (k : Resource) (xs ys : List Act) → losses k (xs ++ ys) ≡ losses k xs + losses k ys
unfolding losses
losses-append k [] ys = omega arith
losses-append k (x ∷ xs) ys = omega (arith, losses-append k xs ys)

-- What Create makes: the number of the channel, and nothing that is not in it.
abbrev pub Numbered : ℕ → Option FrameChannelHost → Type 0
Numbered n none = Unit
Numbered n (some ch) = ch.serial ≡ n

pub record Made (n : ℕ) (x : Option FrameChannelHost × List Act) : Type 0 where
  pub number : Numbered n (x.0)
  pub balanced : (k : Resource) → gains k x.1 ≡ losses k x.1 + holds k (x.0)

nothing-Made : (n : ℕ) → Made n (none, [])
unfolding gains losses
nothing-Made n = record { number = tt; balanced = λ k. refl }

closed-Made : (n fd : ℕ) → Made n (none, opened fd ∷ closed fd ∷ [])
unfolding gains losses
closed-Made n fd = record { number = tt; balanced = each }
  where
    each :
        (k : Resource)
        → gains k (opened fd ∷ closed fd ∷ []) ≡ losses k (opened fd ∷ closed fd ∷ []) + 0
    each (descriptor m) = omega arith
    each (mapping m) = refl

open-Made :
    (n fd : ℕ) (c : Channel)
    → Made n (some (record { serial = n; fd = fd; channel = c }), opened fd ∷ mapped fd ∷ [])
unfolding gains losses
open-Made n fd c = record { number = refl; balanced = each }
  where
    each :
        (k : Resource)
        → gains k (opened fd ∷ mapped fd ∷ [])
          ≡ losses k (opened fd ∷ mapped fd ∷ [])
            + holds k (some (record { serial = n; fd = fd; channel = c }))
    each (descriptor m) = omega arith
    each (mapping m) = omega arith

either-Made :
    (b : Bool) (n : ℕ) (x y : Option FrameChannelHost × List Act)
    → Made n x
    → Made n y
    → Made n (if b then x else y)
either-Made true n x y h h' = h
either-Made false n x y h h' = h'

fd-Made : (n : ℕ) (c : Channel) (a : Answers) (o : Option ℕ) → Made n (with_fd n c a o)
fd-Made n c a none = nothing-Made n
fd-Made n c a (some fd) =
    either-Made a.truncates n _ _ (either-Made a.maps n _ _ (open-Made n fd c) (closed-Made n fd))
      (closed-Made n fd)

layout-Made : (n : ℕ) (a : Answers) (o : Option Channel) → Made n (with_layout n a o)
layout-Made n a none = nothing-Made n
layout-Made n a (some c) = fd-Made n c a a.memfd

pub create-Made :
    (n width height slots : ℕ) (a : Answers) → Made n (create_channel n width height slots a)
unfolding create_channel
create-Made n width height slots a = layout-Made n a (create width height slots)

destroy-balanced :
    (k : Resource) (o : Option FrameChannelHost)
    → gains k (destroy_channel o) + holds k o ≡ losses k (destroy_channel o)
unfolding destroy_channel gains losses
destroy-balanced k none = refl
destroy-balanced (descriptor fd) (some ch) = omega arith
destroy-balanced (mapping fd) (some ch) = omega arith

abbrev pub Older : ℕ → Option FrameChannelHost → Type 0
Older n none = Unit
Older n (some ch) = ch.serial < n

-- A step keeps the balance, and the channel has one of the numbers given out.
pub record Good (h : Host) (x : Host × List Act) : Type 0 where
  pub older : Older (x.0.made) (x.0.host_channel)
  pub balanced :
      (k : Resource)
      → gains k x.1 + holds k h.host_channel ≡ losses k x.1 + holds k (x.0.host_channel)

same-Good :
    (h h' : Host)
    → h'.host_channel ≡ h.host_channel
    → h'.made ≡ h.made
    → Older h.made h.host_channel
    → Good h (h', [])
unfolding gains losses
same-Good h h' e m older = record {
  older = subst (λ o. Older h'.made o) (sym e) (subst (λ n. Older n h.host_channel) (sym m) older);
  balanced = λ k. ap (λ o. 0 + holds k o) (sym e);
}

after_create-Good :
    (h : Host) (x : Option FrameChannelHost × List Act)
    → Made h.made x
    → Older h.made h.host_channel
    → Good h ((after_create h x).1, (after_create h x).2)
unfolding set_host_channel
after_create-Good h (none, acts) made older = record {
  older = older;
  balanced = λ k. omega (arith, made.balanced k);
}
after_create-Good h (some ch, acts) made older = record {
  older = omega (arith, made.number);
  balanced = λ k. omega (
    arith,
    made.balanced k,
    destroy-balanced k h.host_channel,
    gains-append k acts (destroy_channel h.host_channel),
    losses-append k acts (destroy_channel h.host_channel),
  );
}

step-Good : (h : Host) (e : Event) → Older h.made h.host_channel → Good h (step h e)
unfolding step native_create_frame_channel native_close_frame_channel set_host_channel grab
step-Good h (creates width height slots a) older =
    after_create-Good h (create_channel h.made (to_u32 width) (to_u32 height) (to_u32 slots) a)
      (create-Made h.made (to_u32 width) (to_u32 height) (to_u32 slots) a) older
step-Good h closes older = record {
  older = tt;
  balanced = λ k. omega (arith, destroy-balanced k h.host_channel);
}
step-Good h grabs older = same-Good h _ refl refl older
step-Good h leaves older = same-Good h _ refl refl older

pub run-Good : (h : Host) (es : List Event) → Older h.made h.host_channel → Good h (run h es)
unfolding run
run-Good h [] older = same-Good h h refl refl older
run-Good h (e ∷ es) older =
    let first = step-Good h e older in
    let rest = run-Good (step h e).0 es first.older in
    record {
      older = rest.older;
      balanced = λ k. omega (
        arith,
        first.balanced k,
        rest.balanced k,
        gains-append k (step h e).1 (run (step h e).0 es).1,
        losses-append k (step h e).1 (run (step h e).0 es).1,
      );
    }

-- Over any channels created, also where memfd_create, ftruncate or mmap fail, and closed, each
-- descriptor and each mapping is given back exactly once, but for those of the channel there is;
-- behind a close none is left.
pub channel_owned :
    (k : Resource) (es : List Event)
    → (gains k (run new_host es).1
        ≡ losses k (run new_host es).1 + holds k (run new_host es).0.host_channel)
      × (holds k (native_close_frame_channel (run new_host es).0).0.host_channel ≡ 0)
unfolding native_close_frame_channel set_host_channel
channel_owned k es = (omega (arith, (run-Good new_host es tt).balanced k), refl)
