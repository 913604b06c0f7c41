-- ===== src/Frame/Host.antt =====
-- The channel of the host: FrameChannelHost::Create with its failures and ~FrameChannelHost of
-- core/frame_channel.cpp, the channel of the process behind HostChannel and SetHostChannel, and
-- nativeCreateFrameChannel and nativeCloseFrameChannel of core/container_core.cpp. What
-- memfd_create(2), ftruncate(2) and mmap(2) answer is an argument, and descriptors and mappings
-- are a trace; a mapping is named by the descriptor it was made of. Each channel has a number of
-- its own, for the pointer that the pump of core/display_renderer.cpp holds while it reads.
pub mod Owned
use virtualaosp.Base.{
  ℕ, zero, suc, ◌+◌, ◌<◌, Bool, true, false, Option, none, some, List, [], ◌∷◌, ◌++◌, ◌==◌, ◌≡◌,
  refl, ap, ◌∙◌, sym, subst, arith, if◌then◌else◌, inl, inr, Bool-cases, ==_self,
}
use virtualaosp.Base.Int.{ℤ, pos, negsuc, to_u32}
use virtualaosp.Frame.Layout.{Channel, create}

pub record FrameChannelHost : Type 0 where
  pub serial : ℕ
  pub fd : ℕ
  pub channel : Channel

pub data Act : Type 0 where
  opened closed mapped unmapped : ℕ → Act

-- The descriptor of memfd_create, if it succeeds, and whether ftruncate and mmap do.
pub record Answers : Type 0 where
  pub memfd : Option ℕ
  pub truncates : Bool
  pub maps : Bool

-- ~FrameChannelHost of a channel that is complete.
unfoldable pub destroy_channel : Option FrameChannelHost → List Act
destroy_channel none = []
destroy_channel (some ch) = unmapped ch.fd ∷ closed ch.fd ∷ []

-- A channel that is not complete closes its descriptor.
abbrev pub with_fd : ℕ → Channel → Answers → Option ℕ → Option FrameChannelHost × List Act
with_fd serial c a none = (none, [])
with_fd serial c a (some fd) =
    if a.truncates
    then (if a.maps
        then (some (record { serial = serial; fd = fd; channel = c }), opened fd ∷ mapped fd ∷ [])
        else (none, opened fd ∷ closed fd ∷ []))
    else (none, opened fd ∷ closed fd ∷ [])

abbrev pub with_layout : ℕ → Answers → Option Channel → Option FrameChannelHost × List Act
with_layout serial a none = (none, [])
with_layout serial a (some c) = with_fd serial c a a.memfd

unfoldable pub create_channel : ℕ → ℕ → ℕ → ℕ → Answers → Option FrameChannelHost × List Act
unfolding create
create_channel serial width height slots a = with_layout serial a (create width height slots)

-- g_host_channel, how many channels were made, and the channel that the pump got from HostChannel
-- and has not left.
pub record Host : Type 0 where
  pub host_channel : Option FrameChannelHost
  pub made : ℕ
  pub pumped : Option ℕ

abbrev pub new_host : Host
new_host = record { host_channel = none; made = 0; pumped = none }

unfoldable pub set_host_channel : Host → Option FrameChannelHost → Host × List Act
unfolding destroy_channel
set_host_channel h ch = (record h { host_channel = ch }, destroy_channel h.host_channel)

abbrev pub after_create : Host → Option FrameChannelHost × List Act → ℤ × Host × List Act
after_create h (none, acts) = (negsuc 21, h, acts)
after_create h (some ch, acts) =
    let (h', more) = set_host_channel (record h { made = suc h.made }) (some ch) in
    (pos ch.fd, h', acts ++ more)

unfoldable pub native_create_frame_channel : Host → ℤ → ℤ → ℤ → Answers → ℤ × Host × List Act
unfolding create_channel set_host_channel
native_create_frame_channel h width height slots a =
    after_create h (create_channel h.made (to_u32 width) (to_u32 height) (to_u32 slots) a)

-- The part of nativeCloseFrameChannel behind destroyWindow.
unfoldable pub native_close_frame_channel : Host → Host × List Act
unfolding set_host_channel
native_close_frame_channel h = set_host_channel h none

abbrev pub serial_of : Option FrameChannelHost → Option ℕ
serial_of none = none
serial_of (some ch) = some ch.serial

-- A round of the pump that asks for the channel, and its end.
unfoldable pub grab : Host → Host
grab h = record h { pumped = serial_of h.host_channel }

pub data Event : Type 0 where
  creates : ℤ → ℤ → ℤ → Answers → Event
  closes grabs leaves : Event

unfoldable pub step : Host → Event → Host × List Act
unfolding native_create_frame_channel native_close_frame_channel grab
step h (creates width height slots a) =
    let result = native_create_frame_channel h width height slots a in (result.1, result.2)
step h closes = native_close_frame_channel h
step h grabs = (grab h, [])
step h leaves = (record h { pumped = none }, [])

unfoldable pub run : Host → List Event → Host × List Act
unfolding step
run h [] = (h, [])
run h (e ∷ es) = let (h', acts) = step h e in let (h'', more) = run h' es in (h'', acts ++ more)
