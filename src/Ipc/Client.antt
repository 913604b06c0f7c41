-- ===== src/Ipc/Client.antt =====
-- The guest's endpoint: ConnectHost and ipc_client_init_from_env of fake/ipc_client.cpp, and the
-- spools of fake/input_injector.cpp. The calls into the system are a parameter.
use virtualaosp.Base.{
  ℕ, ◌+◌, ◌≤◌, ◌<◌, Bool, true, false, Option, none, some, ◌∷◌, ◌++◌, ◌≡◌, refl, ap, ◌∙◌, arith,
  ◌==◌, leb, if◌then◌else◌, length, length-append, Bytes, codes, is_absolute,
}
use virtualaosp.Guest.Redirect.{
  Engine, MapResult, passthrough, mapped, overflow, map_path, bypasses,
}
use virtualaosp.Guest.Redirect.Confine.{IsActive, guest_view}
use virtualaosp.Guest.Redirect.RoundTrip.{unmap-map_path}
use virtualaosp.Ipc.Event.{AcTouchEvent, AcKeyEvent, touch_record, key_record}

-- socket(AF_UNIX, SOCK_STREAM | SOCK_CLOEXEC), connect to an address, close; open for appending
-- through the library's own hook, writev, and pthread_create of a detached thread. A descriptor is
-- `some fd`, a failure is `none` or false; writev returns its count.
pub record Os : Type 1 where
  pub World : Type 0
  pub socket : World → Option ℕ × World
  pub connect : ℕ → Bytes → World → Bool × World
  pub close : ℕ → World → World
  pub open_append : Bytes → World → Option ℕ × World
  pub writev : ℕ → Bytes → World → Option ℕ × World
  pub start_thread : World → Bool × World

-- sizeof(addr.sun_path)
abbrev pub sun_path_size : ℕ
sun_path_size = 108

abbrev pub target_of : MapResult → Bytes → Option Bytes
target_of passthrough host_sock = some host_sock
target_of (mapped path) host_sock = some path
target_of overflow host_sock = none

-- The address that ConnectHost gives to the kernel.
unfoldable pub connect_target : Engine → Bytes → Option Bytes
unfolding map_path is_absolute
connect_target e host_sock =
    if is_absolute host_sock
    then target_of (map_path e (some host_sock) 8192) host_sock
    else some host_sock

abbrev pub keep_connected : (O : Os) → ℕ → Bool × O.World → Option ℕ × O.World
keep_connected O fd (true, w) = (some fd, w)
keep_connected O fd (false, w) = (none, O.close fd w)

abbrev pub connect_socket : (O : Os) → Bytes → Option ℕ × O.World → Option ℕ × O.World
connect_socket O target (none, w) = (none, w)
connect_socket O target (some fd, w) =
    if leb sun_path_size (length target)
    then (none, O.close fd w)
    else keep_connected O fd (O.connect fd target w)

abbrev pub connect_to : (O : Os) → Option Bytes → O.World → Option ℕ × O.World
connect_to O none w = (none, w)
connect_to O (some target) w = connect_socket O target (O.socket w)

unfoldable pub connect_host : (O : Os) → Engine → Bytes → O.World → Option ℕ × O.World
unfolding connect_target
connect_host O e host_sock w = connect_to O (connect_target e host_sock) w

-- The socket that ClientThread connects to, from AC_IPC_SOCK.
unfoldable pub choose_socket : Option Bytes → Bytes
choose_socket (some (c ∷ sock)) = c ∷ sock
choose_socket _ = codes "/.host.sock"

-- g_running, g_spool_fd and g_key_fd
pub record Client : Type 0 where
  pub running : Bool
  pub spool_fd : Option ℕ
  pub key_fd : Option ℕ

abbrev pub no_client : Client
no_client = record { running = false; spool_fd = none; key_fd = none }

abbrev pub keep_spool : (O : Os) → Client → Option ℕ × O.World → (Bool × Client) × O.World
keep_spool O c (none, w) = ((false, c), w)
keep_spool O c (some fd, w) = ((true, record c { spool_fd = some fd }), w)

unfoldable pub input_injector_init : (O : Os) → Bool → Client → O.World → (Bool × Client) × O.World
input_injector_init O false c w = ((false, c), w)
input_injector_init O true c w = keep_spool O c (O.open_append (codes "/dev/ac_input") w)

-- Whether writev took the whole record.
abbrev pub wrote_all : {W : Type 0} → Bytes → Option ℕ × W → Bool × W
wrote_all bytes (none, w) = (false, w)
wrote_all bytes (some n, w) = (n == length bytes, w)

abbrev pub append_to : (O : Os) → Option ℕ → Bytes → O.World → Bool × O.World
append_to O none bytes w = (false, w)
append_to O (some fd) bytes w = wrote_all bytes (O.writev fd bytes w)

unfoldable pub inject_touch : (O : Os) → Client → AcTouchEvent → O.World → Bool × O.World
unfolding touch_record
inject_touch O c ev w = append_to O c.spool_fd (touch_record ev) w

-- The key spool is opened by the first event, and again by later ones while that fails.
abbrev pub key_spool : (O : Os) → Client → O.World → Option ℕ × O.World
key_spool O c w = elim c.key_fd [
  | some fd ↦ (some fd, w)
  | none ↦ O.open_append (codes "/dev/ac_keys") w
]

abbrev pub append_key : (O : Os) → Client → Bytes → Option ℕ × O.World → Client × (Bool × O.World)
append_key O c bytes (fd, w) = (record c { key_fd = fd }, append_to O fd bytes w)

unfoldable pub inject_key : (O : Os) → Client → AcKeyEvent → O.World → Client × (Bool × O.World)
unfolding key_record
inject_key O c ev w = append_key O c (key_record ev) (key_spool O c w)

abbrev pub run_if_started : (O : Os) → Client → Bool × O.World → (Bool × Client) × O.World
run_if_started O c (started, w) = ((started, record c { running = started }), w)

unfoldable pub ipc_client_init_from_env :
    (O : Os) → Bool → Client → O.World → (Bool × Client) × O.World
unfolding input_injector_init
ipc_client_init_from_env O false c w = ((false, c), w)
ipc_client_init_from_env O true c w =
    let ((opened, c'), w') = input_injector_init O true c w in
    run_if_started O c' (O.start_thread w')

connect_target-inside :
    (e : Engine) (sock : Bytes)
    → IsActive e
    → is_absolute sock ≡ true
    → bypasses e sock ≡ false
    → length e.root + length (guest_view e sock) < 8192
    → connect_target e sock ≡ some (e.root ++ guest_view e sock)
unfolding connect_target
connect_target-inside e sock v a b room =
    ap (λ t. if t then target_of (map_path e (some sock) 8192) sock else some sock) a
    ∙ ap (λ r. target_of r sock) (unmap-map_path e sock 8192 v a b room).0

connect_host_lem :
    (O : Os) (e : Engine) (sock target : Bytes) (fd : ℕ) (w w' : O.World)
    → connect_target e sock ≡ some target
    → O.socket w ≡ (some fd, w')
    → connect_host O e sock w ≡ (
        if leb sun_path_size (length target)
        then (none, O.close fd w')
        else keep_connected O fd (O.connect fd target w'))
unfolding connect_host
connect_host_lem O e sock target fd w w' t s =
    ap (λ o. connect_to O o w) t ∙ ap (connect_socket O target) s

kept :
    (O : Os) (fd : ℕ) (answer : Bool × O.World)
    → keep_connected O fd answer
      ≡ (if answer.0 then (some fd, answer.1) else (none, O.close fd answer.1))
kept O fd (true, w) = refl
kept O fd (false, w) = refl

-- In an active process, for an absolute socket path that no bypass applies to, within the buffer
-- of 8192 bytes: once the socket is made, `ConnectHost` connects it to the guest's view of the
-- path inside the root, and returns it if that succeeds and closes it if not; if that text has 108
-- bytes or more it connects to nothing and closes the socket.
pub connect_host_confined :
    (O : Os) (e : Engine) (sock : Bytes) (fd : ℕ) (w w' : O.World)
    → IsActive e
    → is_absolute sock ≡ true
    → bypasses e sock ≡ false
    → length e.root + length (guest_view e sock) < 8192
    → O.socket w ≡ (some fd, w')
    → (length e.root + length (guest_view e sock) < sun_path_size
        → (let (ok, w'') = O.connect fd (e.root ++ guest_view e sock) w' in
            connect_host O e sock w ≡ (if ok then (some fd, w'') else (none, O.close fd w''))))
      × (sun_path_size ≤ length e.root + length (guest_view e sock)
          → connect_host O e sock w ≡ (none, O.close fd w'))
connect_host_confined O e sock fd w w' v a b room s =
    let target = e.root ++ guest_view e sock in
    let t = connect_target-inside e sock v a b room in
    let n = length-append e.root (guest_view e sock) in
    let l = connect_host_lem O e sock target fd w w' t s in
    (
      (λ h.
          l
          ∙ (let f : leb sun_path_size (length target) ≡ false = ground (arith, n) in
              rw f (kept O fd (O.connect fd target w')))),
      (λ h.
          l ∙ (let f : leb sun_path_size (length target) ≡ true = ground (arith, n) in rw f refl)),
    )
