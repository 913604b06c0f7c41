-- ===== src/Frame/Host/Owned/Pointer.antt =====
-- The pump's pointer to the channel of the host, over the calls of core/container_core.cpp that
-- come while pumpLoop of core/display_renderer.cpp reads through it.
use virtualaosp.Base.{
  ℕ, ◌<◌, Bool, false, Option, none, some, List, [], ◌∷◌, ◌++◌, ◌==◌, ◌≡◌, refl, ap, ◌∙◌, sym,
  subst, ◌⊎◌, inl, inr, arith, ==_self,
}
use virtualaosp.Base.Int.{to_u32}
use virtualaosp.Frame.Layout.{Channel, create}
use virtualaosp.Frame.Host.{
  FrameChannelHost, Act, Answers, with_fd, with_layout, create_channel, destroy_channel, Host,
  new_host, set_host_channel, after_create, native_create_frame_channel, native_close_frame_channel,
  serial_of, grab, Event, creates, closes, grabs, leaves, step, run,
}
use virtualaosp.Frame.Host.Owned.{
  mapping, losses, losses-append, Made, create-Made, Older, run-Good,
}

-- Calls of the app, in which the pump neither asks for the channel nor leaves it.
abbrev pub AllCalls : List Event → Type 0
AllCalls [] = Unit
AllCalls (creates width height slots a ∷ es) = AllCalls es
AllCalls (closes ∷ es) = AllCalls es
AllCalls (grabs ∷ es) = ⊥
AllCalls (leaves ∷ es) = ⊥

abbrev pub is_channel : ℕ → Option FrameChannelHost → Bool
is_channel n none = false
is_channel n (some ch) = ch.serial == n

-- The channel is still the one of the process, and nothing was unmapped.
abbrev pub Kept : FrameChannelHost → Host × List Act → Type 0
Kept ch (h, acts) = (h.host_channel ≡ some ch) × ((fd : ℕ) → losses (mapping fd) acts ≡ 0)

-- The channel was unmapped, and the process has another one or none.
abbrev pub Gone : FrameChannelHost → Host × List Act → Type 0
Gone ch (h, acts) =
    (is_channel ch.serial h.host_channel ≡ false) × (0 < losses (mapping ch.fd) acts)

fd-unmaps :
    (n : ℕ) (c : Channel) (a : Answers) (o : Option ℕ) (fd : ℕ)
    → losses (mapping fd) (with_fd n c a o).1 ≡ 0
unfolding losses
fd-unmaps n c a none fd = refl
fd-unmaps n c a (some m) fd = ground arith

layout-unmaps :
    (n : ℕ) (a : Answers) (o : Option Channel) (fd : ℕ)
    → losses (mapping fd) (with_layout n a o).1 ≡ 0
layout-unmaps n a none fd = (unfold losses in refl)
layout-unmaps n a (some c) fd = fd-unmaps n c a a.memfd fd

create-unmaps :
    (n width height slots : ℕ) (a : Answers) (fd : ℕ)
    → losses (mapping fd) (create_channel n width height slots a).1 ≡ 0
unfolding create_channel
create-unmaps n width height slots a fd = layout-unmaps n a (create width height slots) fd

destroy-unmaps :
    (ch : FrameChannelHost) (o : Option FrameChannelHost)
    → o ≡ some ch
    → 0 < losses (mapping ch.fd) (destroy_channel o)
destroy-unmaps ch o e =
    subst (λ x. 0 < losses (mapping ch.fd) (destroy_channel x)) (sym e)
      (unfold destroy_channel losses in ground (arith, ==_self ch.fd))

-- What calls make of a channel that was there, and of one that was not.
record Goes (ch : FrameChannelHost) (h : Host) (x : Host × List Act) : Type 0 where
  younger : ch.serial < x.0.made
  pumped_is : x.0.pumped ≡ h.pumped
  kept : h.host_channel ≡ some ch → Kept ch x ⊎ Gone ch x
  lost :
      is_channel ch.serial h.host_channel ≡ false → is_channel ch.serial (x.0.host_channel) ≡ false

after_create-Goes :
    (ch : FrameChannelHost) (h : Host) (x : Option FrameChannelHost × List Act)
    → Made h.made x
    → ((fd : ℕ) → losses (mapping fd) x.1 ≡ 0)
    → ch.serial < h.made
    → Goes ch h ((after_create h x).1, (after_create h x).2)
unfolding set_host_channel
after_create-Goes ch h (none, acts) made no_unmap lt = record {
  younger = lt;
  pumped_is = refl;
  kept = λ e. inl (e, no_unmap);
  lost = λ apart. apart;
}
after_create-Goes ch h (some ch', acts) made no_unmap lt =
    let apart : (ch'.serial == ch.serial) ≡ false = ground (arith, made.number) in
    record {
      younger = omega (arith, made.number);
      pumped_is = refl;
      kept = λ e. inr (
        apart,
        omega (
          arith,
          losses-append (mapping ch.fd) acts (destroy_channel h.host_channel),
          destroy-unmaps ch h.host_channel e,
        ),
      );
      lost = λ before. apart;
    }

close-Goes :
    (ch : FrameChannelHost) (h : Host)
    → ch.serial < h.made
    → Goes ch h (native_close_frame_channel h)
unfolding native_close_frame_channel set_host_channel
close-Goes ch h lt = record {
  younger = lt;
  pumped_is = refl;
  kept = λ e. inr (refl, destroy-unmaps ch h.host_channel e);
  lost = λ before. refl;
}

after-Goes :
    (ch : FrameChannelHost) (h : Host) (x y : Host × List Act)
    → Goes ch h x
    → Goes ch x.0 y
    → Goes ch h (y.0, x.1 ++ y.1)
after-Goes ch h x y first rest =
    let split = λ (fd : ℕ). losses-append (mapping fd) x.1 y.1 in
    record {
      younger = rest.younger;
      pumped_is = rest.pumped_is ∙ first.pumped_is;
      kept = λ e. elim (first.kept e) [
        | inl (here, none_yet) ↦ elim (rest.kept here) [
          | inl (there, none_then) ↦
              inl (there, λ fd. omega (arith, split fd, none_yet fd, none_then fd))
          | inr (apart, unmaps) ↦ inr (apart, omega (arith, split ch.fd, unmaps))
        ]
        | inr (apart, unmaps) ↦ inr (rest.lost apart, omega (arith, split ch.fd, unmaps))
      ];
      lost = λ apart. rest.lost (first.lost apart);
    }

run-Goes :
    (ch : FrameChannelHost) (h : Host) (es : List Event)
    → AllCalls es
    → ch.serial < h.made
    → Goes ch h (run h es)
unfolding run step native_create_frame_channel
run-Goes ch h [] calls lt = record {
  younger = lt;
  pumped_is = refl;
  kept = λ e. inl (e, λ fd. (unfold losses in refl));
  lost = λ apart. apart;
}
run-Goes ch h (creates width height slots a ∷ es) calls lt =
    let made = create-Made h.made (to_u32 width) (to_u32 height) (to_u32 slots) a in
    let no_unmap = create-unmaps h.made (to_u32 width) (to_u32 height) (to_u32 slots) a in
    let first = after_create-Goes ch h _ made no_unmap lt in
    after-Goes ch h (step h (creates width height slots a)) _ first
      (run-Goes ch (step h (creates width height slots a)).0 es calls first.younger)
run-Goes ch h (closes ∷ es) calls lt =
    let first = close-Goes ch h lt in
    after-Goes ch h (step h closes) _ first (run-Goes ch (step h closes).0 es calls first.younger)
run-Goes ch h (grabs ∷ es) calls lt = absurd calls
run-Goes ch h (leaves ∷ es) calls lt = absurd calls

run-closes : (h : Host) (es : List Event) → (run h (es ++ (closes ∷ []))).0.host_channel ≡ none
unfolding run step native_close_frame_channel set_host_channel
run-closes h [] = refl
run-closes h (e ∷ es) = run-closes (step h e).0 es

AllCalls-closes : (es : List Event) → AllCalls es → AllCalls (es ++ (closes ∷ []))
AllCalls-closes [] calls = tt
AllCalls-closes (creates width height slots a ∷ es) calls = AllCalls-closes es calls
AllCalls-closes (closes ∷ es) calls = AllCalls-closes es calls
AllCalls-closes (grabs ∷ es) calls = absurd calls
AllCalls-closes (leaves ∷ es) calls = absurd calls

closed-Gone :
    (ch : FrameChannelHost) (x : Host × List Act)
    → x.0.host_channel ≡ none
    → Kept ch x ⊎ Gone ch x
    → Gone ch x
closed-Gone ch x e (inl (there, none_yet)) = absurd (ground (arith, sym e ∙ there))
closed-Gone ch x e (inr gone) = gone

-- The pump asks for the channel, in any state that is reached with one, and then calls of
-- nativeCreateFrameChannel and nativeCloseFrameChannel come while it reads. Its pointer goes on to
-- point to that channel; either the channel is still the one of the process and nothing was
-- unmapped, or it was unmapped and the process has another one or none. Behind a close it is the
-- latter.
pub pump_pointer :
    (es later : List Event) (ch : FrameChannelHost)
    → (run new_host es).0.host_channel ≡ some ch
    → AllCalls later
    → (let x = run (grab (run new_host es).0) later in
        let y = run (grab (run new_host es).0) (later ++ (closes ∷ [])) in
        (x.0.pumped ≡ some ch.serial) × (Kept ch x ⊎ Gone ch x) × Gone ch y)
unfolding grab
pump_pointer es later ch e calls =
    let h = grab (run new_host es).0 in
    let older : ch.serial < h.made = subst (Older h.made) e (run-Good new_host es tt).older in
    let goes = run-Goes ch h later calls older in
    let behind = later ++ (closes ∷ []) in
    let ends = run-Goes ch h behind (AllCalls-closes later calls) older in
    (
      goes.pumped_is ∙ ap serial_of e,
      goes.kept e,
      closed-Gone ch (run h behind) (run-closes h later) (ends.kept e),
    )
