-- ===== src/Ipc/Wire.antt =====
-- The packet header of core/ipc.cpp and fake/ipc_client.cpp. `htonl` and `htons` followed by a
-- copy of the packed struct give the fields' bytes from the most significant to the least.
use virtualaosp.Base.{
  ℕ, ◌+◌, ◌*◌, ◌/◌, ◌%◌, ◌^◌, ◌<◌, Bool, ◌||◌, not, [], ◌∷◌, ◌++◌, ◌≡◌, refl, arith, ◌==◌, ltb,
  length, Bytes,
}

pub record PacketHeader : Type 0 where
  pub magic : ℕ
  pub version : ℕ
  pub type : ℕ
  pub length : ℕ

abbrev pub ipc_magic : ℕ
ipc_magic = 0x41434950

abbrev pub ipc_version : ℕ
ipc_version = 1

-- kMaxPayload of both sides
abbrev pub max_payload : ℕ
max_payload = 2 ^ 20

-- sizeof(PacketHeader)
abbrev pub header_size : ℕ
header_size = 12

abbrev pub ping : ℕ
ping = 1

abbrev pub pong : ℕ
pong = 2

abbrev pub guest_ready : ℕ
guest_ready = 4

abbrev pub input_touch : ℕ
input_touch = 0x10

abbrev pub input_key : ℕ
input_key = 0x11

abbrev pub htons : ℕ → Bytes
htons n = (n / 2 ^ 8 % 2 ^ 8) ∷ (n % 2 ^ 8) ∷ []

abbrev pub htonl : ℕ → Bytes
htonl n = (n / 2 ^ 24 % 2 ^ 8) ∷ (n / 2 ^ 16 % 2 ^ 8) ∷ (n / 2 ^ 8 % 2 ^ 8) ∷ (n % 2 ^ 8) ∷ []

unfoldable pub encode_header : PacketHeader → Bytes
encode_header h = htonl h.magic ++ (htons h.version ++ (htons h.type ++ htonl h.length))

abbrev pub ntohs : ℕ → ℕ → ℕ
ntohs a b = a * 2 ^ 8 + b

abbrev pub ntohl : ℕ → ℕ → ℕ → ℕ → ℕ
ntohl a b c d = a * 2 ^ 24 + b * 2 ^ 16 + c * 2 ^ 8 + d

abbrev empty_header : PacketHeader
empty_header = record { magic = 0; version = 0; type = 0; length = 0 }

-- The copy into the struct and the four conversions; both callers pass twelve bytes.
unfoldable pub decode_header : Bytes → PacketHeader
decode_header (a ∷ b ∷ c ∷ d ∷ e ∷ f ∷ g ∷ h ∷ i ∷ j ∷ k ∷ l ∷ []) = record {
  magic = ntohl a b c d;
  version = ntohs e f;
  type = ntohs g h;
  length = ntohl i j k l;
}
decode_header other = empty_header

-- `h.magic != kIpcMagic || h.version != kIpcVersion || h.length > kMaxPayload`
unfoldable pub is_bad : PacketHeader → Bool
is_bad h =
    not (h.magic == ipc_magic) || (not (h.version == ipc_version) || ltb max_payload h.length)

-- Every field fits its width.
pub record IsWire (h : PacketHeader) : Type 0 where
  pub magic : h.magic < 2 ^ 32
  pub version : h.version < 2 ^ 16
  pub type : h.type < 2 ^ 16
  pub length : h.length < 2 ^ 32

pub length-encode_header : (h : PacketHeader) → length (encode_header h) ≡ header_size
unfolding encode_header
length-encode_header h = refl

htonl-ntohl :
    (n : ℕ)
    → n < 2 ^ 32
    → ntohl (n / 2 ^ 24 % 2 ^ 8) (n / 2 ^ 16 % 2 ^ 8) (n / 2 ^ 8 % 2 ^ 8) (n % 2 ^ 8) ≡ n
htonl-ntohl n h = omega arith

htons-ntohs : (n : ℕ) → n < 2 ^ 16 → ntohs (n / 2 ^ 8 % 2 ^ 8) (n % 2 ^ 8) ≡ n
htons-ntohs n h = omega arith

-- Each header whose fields fit their widths is read back from its bytes on the wire.
pub decode-encode_header : (h : PacketHeader) → IsWire h → decode_header (encode_header h) ≡ h
unfolding decode_header encode_header
decode-encode_header h v = λ i. record {
  magic = htonl-ntohl h.magic v.magic i;
  version = htons-ntohs h.version v.version i;
  type = htons-ntohs h.type v.type i;
  length = htonl-ntohl h.length v.length i;
}
